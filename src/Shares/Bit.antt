-- ===== src/Shares/Bit.antt =====
-- iris-mpc-cpu/src/shares/bit.rs: the ring of one bit, whose value is an `u8` that is 0 or 1.
use iris_mpc.Prelude.{
  ℕ, zero, suc, ◌≡◌, ◌<◌, refl, Option, none, some, Bool, true, false, ◌==◌, if◌then◌else◌, bit_and,
  bit_or, bit_xor, arith,
}
use iris_mpc.Shares.RingElement

pub new : Bool → ℕ
new true = 1
new false = 0

unfoldable pub convert : ℕ → Bool
convert b = b == 1

-- `none` is the conversion error.
unfoldable pub try_from : ℕ → Option ℕ
try_from zero = some 0
try_from (suc zero) = some 1
try_from (suc (suc n)) = none

unfoldable pub xor : ℕ → ℕ → ℕ
xor a b = bit_xor a b

unfoldable pub or : ℕ → ℕ → ℕ
or a b = bit_or a b

unfoldable pub and : ℕ → ℕ → ℕ
and a b = bit_and a b

pub wrapping_add : ℕ → ℕ → ℕ
unfolding xor
wrapping_add a b = xor a b

pub wrapping_sub : ℕ → ℕ → ℕ
unfolding xor
wrapping_sub a b = xor a b

pub wrapping_neg : ℕ → ℕ
wrapping_neg a = a

pub wrapping_mul : ℕ → ℕ → ℕ
unfolding and
wrapping_mul a b = and a b

pub not : ℕ → ℕ
not a = bit_xor a 1

pub shl : ℕ → ℕ → ℕ
shl a rhs = if rhs == 0 then a else 0

pub shr : ℕ → ℕ → ℕ
shr a rhs = if rhs == 0 then a else 0

-- `none` is the panic of a division by zero.
pub rem : ℕ → ℕ → Option ℕ
rem a zero = none
rem a (suc zero) = some 0
rem a (suc (suc n)) = none

-- On bits, addition, subtraction, negation, multiplication and complement are those of the integers
-- of width 1.
Bit-RingElement :
    (a b : ℕ)
    → a < 2
    → b < 2
    → (wrapping_add a b ≡ RingElement.wrapping_add 1 a b)
      × (wrapping_sub a b ≡ RingElement.wrapping_sub 1 a b)
      × (wrapping_neg a ≡ RingElement.wrapping_neg 1 a)
      × (wrapping_mul a b ≡ RingElement.wrapping_mul 1 a b)
      × (not a ≡ RingElement.not 1 a)
unfolding wrapping_add wrapping_sub wrapping_neg wrapping_mul not RingElement.wrapping_add
    RingElement.wrapping_sub RingElement.wrapping_neg RingElement.wrapping_mul RingElement.not
Bit-RingElement zero zero p q = (refl, refl, refl, refl, refl)
Bit-RingElement zero (suc zero) p q = (refl, refl, refl, refl, refl)
Bit-RingElement (suc zero) zero p q = (refl, refl, refl, refl, refl)
Bit-RingElement (suc zero) (suc zero) p q = (refl, refl, refl, refl, refl)
Bit-RingElement zero (suc (suc b)) p q = absurd (omega arith)
Bit-RingElement (suc zero) (suc (suc b)) p q = absurd (omega arith)
Bit-RingElement (suc (suc a)) b p q = absurd (omega arith)

-- The conversion from a number accepts exactly 0 and 1, and of these `convert` tells which it was:
-- `new` gives it back.
try_from-new : (n : ℕ) (b : ℕ) → try_from n ≡ some b → (n ≡ b) × (b < 2) × (new (convert b) ≡ b)
unfolding try_from new convert
try_from-new zero b e = ground arith
try_from-new (suc zero) b e = ground arith
try_from-new (suc (suc n)) b e = absurd (cc)
