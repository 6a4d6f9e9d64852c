-- ===== src/Prelude/Bits.antt =====
-- The bits of a number, and the native bit operations read bit by bit.
use Prim.Native.Nat.{ℕ, zero, suc, ◌+◌, ◌*◌, ◌/◌, ◌%◌, ◌≤◌, ◌<◌, ◌^◌, min, max}
use Prim.Native.Nat.{bit_and, bit_or, bit_xor, digits, differ}
use Prim.Native.Nat.{bit_and-bitwise, bit_or-bitwise, bit_xor-bitwise}
use mathlib.Core.Path.{◌≡◌, refl}
use mathlib.Core.Bool.{Bool, true, false, ◌&&◌, ◌||◌}
use native.Mathlib.Omega.{arith}
use native.Mathlib.Nat.{pow-suc}
use iris_mpc.Prelude.Tests.{◌==◌}

-- Any fuel from the first number on gives the same digits.
module _ (z : ℕ → ℕ) (f : ℕ → ℕ → ℕ) where
  digits-fuel : (k l a b : ℕ) → a ≤ k → a ≤ l → digits z f k a b ≡ digits z f l a b
  digits-fuel zero zero a b p q = refl
  digits-fuel zero (suc l) zero b p q = refl
  digits-fuel zero (suc l) (suc a) b p q = absurd (omega arith)
  digits-fuel (suc k) zero zero b p q = refl
  digits-fuel (suc k) zero (suc a) b p q = absurd (omega arith)
  digits-fuel (suc k) (suc l) zero b p q = refl
  digits-fuel (suc k) (suc l) (suc a) b p q =
      omega (arith, digits-fuel k l (suc a / 2) (b / 2) (omega arith) (omega arith))

pub bit_and-step : (a b : ℕ) → bit_and a b ≡ bit_and (a / 2) (b / 2) * 2 + min (a % 2) (b % 2)
bit_and-step zero b = omega (arith, bit_and-bitwise 0 b, bit_and-bitwise 0 (b / 2))
bit_and-step (suc a) b = omega (
  arith,
  bit_and-bitwise (suc a) b,
  bit_and-bitwise (suc a / 2) (b / 2),
  digits-fuel (λ y. 0) min a (suc a / 2) (suc a / 2) (b / 2) (omega arith) (omega arith),
)

pub bit_or-step : (a b : ℕ) → bit_or a b ≡ bit_or (a / 2) (b / 2) * 2 + max (a % 2) (b % 2)
bit_or-step zero b = omega (arith, bit_or-bitwise 0 b, bit_or-bitwise 0 (b / 2))
bit_or-step (suc a) b = omega (
  arith,
  bit_or-bitwise (suc a) b,
  bit_or-bitwise (suc a / 2) (b / 2),
  digits-fuel (λ y. y) max a (suc a / 2) (suc a / 2) (b / 2) (omega arith) (omega arith),
)

pub bit_xor-step : (a b : ℕ) → bit_xor a b ≡ bit_xor (a / 2) (b / 2) * 2 + differ (a % 2) (b % 2)
bit_xor-step zero b = omega (arith, bit_xor-bitwise 0 b, bit_xor-bitwise 0 (b / 2))
bit_xor-step (suc a) b = omega (
  arith,
  bit_xor-bitwise (suc a) b,
  bit_xor-bitwise (suc a / 2) (b / 2),
  digits-fuel (λ y. y) differ a (suc a / 2) (suc a / 2) (b / 2) (omega arith) (omega arith),
)

abbrev pub odd : ℕ → Bool
odd a = (a % 2) == 1

abbrev pub bit_at : ℕ → ℕ → Bool
bit_at a zero = odd a
bit_at a (suc i) = bit_at (a / 2) i

abbrev pub xor : Bool → Bool → Bool
xor true true = false
xor true false = true
xor false b = b

abbrev pub to_nat : Bool → ℕ
to_nat true = 1
to_nat false = 0

pub to_nat-odd : (n : ℕ) → to_nat (odd n) ≡ n % 2
to_nat-odd n = ground arith

-- A number is known by its bits.
bit_at-ext_fuel : (n a b : ℕ) → a < n → b < n → ((i : ℕ) → bit_at a i ≡ bit_at b i) → a ≡ b
bit_at-ext_fuel zero a b p q h = absurd (omega arith)
bit_at-ext_fuel (suc n) zero zero p q h = refl
bit_at-ext_fuel (suc n) (suc a) zero p q h =
    ground
      (arith, h 0, bit_at-ext_fuel n (suc a / 2) 0 (omega arith) (omega arith) (λ i. h (suc i)))
bit_at-ext_fuel (suc n) zero (suc b) p q h =
    ground
      (arith, h 0, bit_at-ext_fuel n 0 (suc b / 2) (omega arith) (omega arith) (λ i. h (suc i)))
bit_at-ext_fuel (suc n) (suc a) (suc b) p q h = ground (
  arith,
  h 0,
  bit_at-ext_fuel n (suc a / 2) (suc b / 2) (omega arith) (omega arith) (λ i. h (suc i)),
)

pub bit_at-ext : (a b : ℕ) → ((i : ℕ) → bit_at a i ≡ bit_at b i) → a ≡ b
bit_at-ext a b h = bit_at-ext_fuel (suc (a + b)) a b (omega arith) (omega arith) h

pub bit_and-half : (a b : ℕ) → bit_and a b / 2 ≡ bit_and (a / 2) (b / 2)
bit_and-half a b = omega (arith, bit_and-step a b)

pub bit_at-bit_and : (a b i : ℕ) → bit_at (bit_and a b) i ≡ (bit_at a i && bit_at b i)
bit_at-bit_and a b zero = ground (arith, bit_and-step a b)
bit_at-bit_and a b (suc i) = rw (bit_and-half a b) (bit_at-bit_and (a / 2) (b / 2) i)

pub bit_or-half : (a b : ℕ) → bit_or a b / 2 ≡ bit_or (a / 2) (b / 2)
bit_or-half a b = omega (arith, bit_or-step a b)

pub bit_at-bit_or : (a b i : ℕ) → bit_at (bit_or a b) i ≡ (bit_at a i || bit_at b i)
bit_at-bit_or a b zero = ground (arith, bit_or-step a b)
bit_at-bit_or a b (suc i) = rw (bit_or-half a b) (bit_at-bit_or (a / 2) (b / 2) i)

differ-le-one : (x y : ℕ) → x < 2 → y < 2 → differ x y ≤ 1
differ-le-one zero y p q = omega arith
differ-le-one (suc x) zero p q = omega arith
differ-le-one (suc zero) (suc y) p q = omega arith
differ-le-one (suc (suc x)) (suc y) p q = absurd (omega arith)

pub bit_xor-half : (a b : ℕ) → bit_xor a b / 2 ≡ bit_xor (a / 2) (b / 2)
bit_xor-half a b =
    omega (arith, bit_xor-step a b, differ-le-one (a % 2) (b % 2) (omega arith) (omega arith))

pub bit_at-bit_xor : (a b i : ℕ) → bit_at (bit_xor a b) i ≡ xor (bit_at a i) (bit_at b i)
bit_at-bit_xor a b zero = ground (arith, bit_xor-step a b)
bit_at-bit_xor a b (suc i) = rw (bit_xor-half a b) (bit_at-bit_xor (a / 2) (b / 2) i)

-- The operations stay within a width.
pub bit_xor-lt : (k a b : ℕ) → a < 2 ^ k → b < 2 ^ k → bit_xor a b < 2 ^ k
bit_xor-lt zero zero zero p q = omega arith
bit_xor-lt zero zero (suc b) p q = absurd (omega arith)
bit_xor-lt zero (suc a) b p q = absurd (omega arith)
bit_xor-lt (suc k) a b p q = omega (
  arith,
  pow-suc 2 k,
  bit_xor-step a b,
  differ-le-one (a % 2) (b % 2) (omega arith) (omega arith),
  bit_xor-lt k (a / 2) (b / 2) (omega (arith, pow-suc 2 k)) (omega (arith, pow-suc 2 k)),
)

pub bit_and-lt : (k a b : ℕ) → a < 2 ^ k → b < 2 ^ k → bit_and a b < 2 ^ k
bit_and-lt zero zero zero p q = omega arith
bit_and-lt zero zero (suc b) p q = absurd (omega arith)
bit_and-lt zero (suc a) b p q = absurd (omega arith)
bit_and-lt (suc k) a b p q = omega (
  arith,
  pow-suc 2 k,
  bit_and-step a b,
  bit_and-lt k (a / 2) (b / 2) (omega (arith, pow-suc 2 k)) (omega (arith, pow-suc 2 k)),
)

pub bit_at-zero : (i : ℕ) → bit_at 0 i ≡ false
bit_at-zero zero = refl
bit_at-zero (suc i) = bit_at-zero i

xor-false : (b : Bool) → xor b false ≡ b
xor-false b = ground arith

pub bit_xor_zero : (a : ℕ) → bit_xor a 0 ≡ a
bit_xor_zero a = bit_at-ext _ _ λ i. simp (bit_at-bit_xor, bit_at-zero) (xor-false (bit_at a i))

pub zero_bit_xor : (a : ℕ) → bit_xor 0 a ≡ a
zero_bit_xor a = bit_at-ext _ _ λ i. simp (bit_at-bit_xor, bit_at-zero) refl

-- A mask falls away when it is applied again.
pub bit_xor_cancel : (w m : ℕ) → bit_xor w (bit_xor m w) ≡ m
bit_xor_cancel w m =
    bit_at-ext _ _ λ i. simp (bit_at-bit_xor) (bool_cancel (bit_at w i) (bit_at m i))
  where
    bool_cancel : (a b : Bool) → xor a (xor b a) ≡ b
    bool_cancel a b = ground arith
