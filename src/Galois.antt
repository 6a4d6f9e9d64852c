-- ===== src/Galois.antt =====
-- iris-mpc-common/src/galois.rs: elements of the Galois ring of the integers of 16 bits with a root of
-- `x^4 - x - 1`, by their coefficients in one of three bases.
pub mod Ring
pub mod Bases
pub mod Power
pub mod Inverse
pub mod Shamir
use iris_mpc.Prelude.{
  ℕ, zero, suc, ◌-◌, ◌/◌, ◌*◌, ◌%◌, ◌^◌, Bool, true, false, ◌==◌, ◌&&◌, ltb, if◌then◌else◌, List,
  [], ◌∷◌, Option, none, some, length,
}
use iris_mpc.Shares.RingElement.{wrapping_add, wrapping_sub, wrapping_mul, wrapping_neg}

-- `wrapping_add` and `wrapping_mul` of `u16`.
infixl 6 ◌+%◌
infixl 7 ◌*%◌
unfoldable pub ◌+%◌ : ℕ → ℕ → ℕ
◌+%◌ = wrapping_add 16

unfoldable pub ◌*%◌ : ℕ → ℕ → ℕ
◌*%◌ = wrapping_mul 16

pub data Basis : Type 0 where
  basis_a basis_b monomial : Basis

-- The array `coefs`; the basis is only a mark.
pub record GaloisRingElement (basis : Basis) : Type 0 where
  pub c0 : ℕ
  pub c1 : ℕ
  pub c2 : ℕ
  pub c3 : ℕ

abbrev pub from_coefs : {basis : Basis} → ℕ → ℕ → ℕ → ℕ → GaloisRingElement basis
from_coefs c0 c1 c2 c3 = record { c0 = c0; c1 = c1; c2 = c2; c3 = c3 }

abbrev pub Monomial : Type 0
Monomial = GaloisRingElement monomial

abbrev pub zero_element : Monomial
zero_element = from_coefs 0 0 0 0

abbrev pub one_element : Monomial
one_element = from_coefs 1 0 0 0

abbrev pub exceptional_sequence : List Monomial
exceptional_sequence =
    from_coefs 0 0 0 0
    ∷ from_coefs 1 0 0 0
    ∷ from_coefs 0 1 0 0
    ∷ from_coefs 1 1 0 0
    ∷ from_coefs 0 0 1 0
    ∷ from_coefs 1 0 1 0
    ∷ from_coefs 0 1 1 0
    ∷ from_coefs 1 1 1 0
    ∷ from_coefs 0 0 0 1
    ∷ from_coefs 1 0 0 1
    ∷ from_coefs 0 1 0 1
    ∷ from_coefs 1 1 0 1
    ∷ from_coefs 0 0 1 1
    ∷ from_coefs 1 0 1 1
    ∷ from_coefs 0 1 1 1
    ∷ from_coefs 1 1 1 1
    ∷ []

-- The whole groups of four numbers.
abbrev pub chunks_of_four : (ℕ → ℕ → ℕ → ℕ → Monomial) → List ℕ → List Monomial
chunks_of_four f (x0 ∷ x1 ∷ x2 ∷ x3 ∷ xs) = f x0 x1 x2 x3 ∷ chunks_of_four f xs
chunks_of_four f _ = []

unfoldable pub encode1 : List ℕ → Option (List Monomial)
encode1 x =
    if length x % 4 == 0
    then some (chunks_of_four (λ c0 c1 c2 c3. from_coefs c0 c3 c2 c1) x)
    else none

unfoldable pub encode2 : List ℕ → Option (List Monomial)
encode2 x = if length x % 4 == 0 then some (chunks_of_four from_coefs x) else none

module _ {basis : Basis} where
  unfoldable pub add : GaloisRingElement basis → GaloisRingElement basis → GaloisRingElement basis
  add x y = from_coefs (x.c0 +% y.c0) (x.c1 +% y.c1) (x.c2 +% y.c2) (x.c3 +% y.c3)

  unfoldable pub sub : GaloisRingElement basis → GaloisRingElement basis → GaloisRingElement basis
  sub x y =
      from_coefs (wrapping_sub 16 x.c0 y.c0) (wrapping_sub 16 x.c1 y.c1) (wrapping_sub 16 x.c2 y.c2)
        (wrapping_sub 16 x.c3 y.c3)

  unfoldable pub neg : GaloisRingElement basis → GaloisRingElement basis
  neg x =
      from_coefs (wrapping_neg 16 x.c0) (wrapping_neg 16 x.c1) (wrapping_neg 16 x.c2)
        (wrapping_neg 16 x.c3)

unfoldable pub mul : Monomial → Monomial → Monomial
mul x y =
    from_coefs (x.c0 *% y.c0 +% x.c1 *% y.c3 +% x.c2 *% y.c2 +% x.c3 *% y.c1)
      (x.c0 *% y.c1
        +% x.c1 *% y.c0
        +% x.c1 *% y.c3
        +% x.c2 *% y.c2
        +% x.c3 *% y.c1
        +% x.c2 *% y.c3
        +% x.c3 *% y.c2)
      (x.c0 *% y.c2 +% x.c1 *% y.c1 +% x.c2 *% y.c0 +% x.c2 *% y.c3 +% x.c3 *% y.c2 +% x.c3 *% y.c3)
      (x.c0 *% y.c3 +% x.c1 *% y.c2 +% x.c2 *% y.c1 +% x.c3 *% y.c0 +% x.c3 *% y.c3)

-- The loop of `pow`, which ends within `fuel` turns if the exponent is at most `fuel`.
abbrev pub pow_loop : ℕ → Monomial → Monomial → ℕ → Monomial
pow_loop zero x y exp = mul x y
pow_loop (suc fuel) x y exp =
    let is_odd = exp % 2 == 1 in
    let y' = if is_odd then mul x y else y in
    let exp' = if is_odd then exp - 1 else exp in
    elim (ltb 1 exp) [ true ↦ pow_loop fuel (mul x x) y' (exp' / 2) | false ↦ mul x y ]

unfoldable pub pow : Monomial → ℕ → Monomial
pow x exp = if exp == 0 then one_element else pow_loop exp x one_element exp

abbrev pub exp_inverse : ℕ
exp_inverse = (2 ^ 4 - 1) * 2 ^ (16 - 1) - 1

abbrev pub all_even : Monomial → Bool
all_even x = x.c0 % 2 == 0 && x.c1 % 2 == 0 && x.c2 % 2 == 0 && x.c3 % 2 == 0

-- `none` is the panic for an element without an inverse.
unfoldable pub inverse : Monomial → Option Monomial
unfolding pow
inverse x = if all_even x then none else some (pow x exp_inverse)

unfoldable pub to_basis_a : Monomial → GaloisRingElement basis_a
to_basis_a x =
    from_coefs x.c0 (x.c1 +% x.c0 *% 7454) (x.c2 +% x.c0 *% 35057 +% x.c1 *% 40342)
      (x.c3 +% x.c0 *% 37176 +% x.c1 *% 61738 +% x.c2 *% 8525)

unfoldable pub to_basis_b : Monomial → GaloisRingElement basis_b
to_basis_b x =
    from_coefs (x.c0 *% 16038 +% x.c1 *% 45700 +% x.c2 *% 28361 +% x.c3 *% 37176)
      (x.c0 *% 45700 +% x.c1 *% 28361 +% x.c2 *% 37176 +% x.c3 *% 61738)
      (x.c0 *% 28361 +% x.c1 *% 37176 +% x.c2 *% 61738 +% x.c3 *% 8525)
      (x.c0 *% 37176 +% x.c1 *% 61738 +% x.c2 *% 8525 +% x.c3 *% 1)

unfoldable pub to_monomial : GaloisRingElement basis_a → Monomial
to_monomial x =
    from_coefs x.c0 (x.c1 +% x.c0 *% 58082) (x.c2 +% x.c0 *% 60579 +% x.c1 *% 25194)
      (x.c3 +% x.c0 *% 17325 +% x.c1 *% 51956 +% x.c2 *% 57011)
