-- ===== src/Galois/Bases.antt =====
-- The changes of bases, and what they do to products.
use iris_mpc.Prelude.{ℕ, ◌+◌, ◌*◌, ◌%◌, ◌^◌, ◌<◌, ◌≡◌, ◌∙◌, refl, sym, ap, arith}
use iris_mpc.Prelude.Modular.{mul-mod-mod}
use iris_mpc.Shares.RingElement.{wrapping_add, wrapping_mul}
use iris_mpc.Galois.{
  Basis, GaloisRingElement, basis_a, basis_b, Monomial, from_coefs, ◌+%◌, ◌*%◌, add, mul,
  to_basis_a, to_basis_b, to_monomial,
}
use iris_mpc.Galois.Ring.{raw_mul, reduce, same, mul-reduce, mul-reduce_left, mul-reduce_right}

-- All coefficients are numbers of 16 bits.
pub record AreCoefs {basis : Basis} (x : GaloisRingElement basis) : Type 0 where
  pub lt0 : x.c0 < 2 ^ 16
  pub lt1 : x.c1 < 2 ^ 16
  pub lt2 : x.c2 < 2 ^ 16
  pub lt3 : x.c3 < 2 ^ 16

same_element :
    {basis : Basis} {x y : GaloisRingElement basis}
    → x.c0 ≡ y.c0
    → x.c1 ≡ y.c1
    → x.c2 ≡ y.c2
    → x.c3 ≡ y.c3
    → x ≡ y
same_element e0 e1 e2 e3 = cc

-- Elements in the basis A are the same after a change to the monomial basis and back, and so are
-- elements in the monomial basis after a change to the basis A and back, if their coefficients are
-- numbers of 16 bits.
pub to_monomial-to_basis_a :
    (x : GaloisRingElement basis_a) (y : Monomial)
    → AreCoefs x
    → AreCoefs y
    → (to_basis_a (to_monomial x) ≡ x) × (to_monomial (to_basis_a y) ≡ y)
unfolding to_monomial to_basis_a ◌+%◌ ◌*%◌ wrapping_add wrapping_mul
to_monomial-to_basis_a x y h g = (
  same_element (omega arith) (omega arith) (omega arith) (omega arith),
  same_element (omega arith) (omega arith) (omega arith) (omega arith),
)

-- The dot product of the coefficients, with wrap-around.
abbrev pub dot_coefs : {b c : Basis} → GaloisRingElement b → GaloisRingElement c → ℕ
dot_coefs x y = (x.c0 * y.c0 + x.c1 * y.c1 + x.c2 * y.c2 + x.c3 * y.c3) % 2 ^ 16

raw_monomial : GaloisRingElement basis_a → Monomial
raw_monomial x =
    from_coefs x.c0 (x.c1 + x.c0 * 58082) (x.c2 + x.c0 * 60579 + x.c1 * 25194)
      (x.c3 + x.c0 * 17325 + x.c1 * 51956 + x.c2 * 57011)

to_monomial-reduce :
    (x : GaloisRingElement basis_a) → reduce (to_monomial x) ≡ reduce (raw_monomial x)
unfolding to_monomial raw_monomial ◌+%◌ ◌*%◌ wrapping_add wrapping_mul
to_monomial-reduce x = same (omega arith) (omega arith) (omega arith) (omega arith)

raw_dot :
    (x y : GaloisRingElement basis_a)
    → (to_basis_b (reduce (raw_mul (raw_monomial x) (raw_monomial y)))).c0 ≡ dot_coefs x y
unfolding to_basis_b raw_monomial ◌+%◌ ◌*%◌ wrapping_add wrapping_mul
raw_dot x y = omega arith

-- The first coefficient, in the basis B, of the product of two elements of the basis A is the dot
-- product of their coefficients.
pub to_basis_b-dot_coefs :
    (x y : GaloisRingElement basis_a)
    → (to_basis_b (mul (to_monomial x) (to_monomial y))).c0 ≡ dot_coefs x y
to_basis_b-dot_coefs x y =
    ap (λ z. (to_basis_b z).c0)
      (sym (mul-reduce_left (to_monomial x) (to_monomial y))
        ∙ sym (mul-reduce_right (reduce (to_monomial x)) (to_monomial y))
        ∙ rw (to_monomial-reduce x, to_monomial-reduce y) refl
        ∙ mul-reduce_right (reduce (raw_monomial x)) (raw_monomial y)
        ∙ mul-reduce_left (raw_monomial x) (raw_monomial y)
        ∙ mul-reduce (raw_monomial x) (raw_monomial y))
    ∙ raw_dot x y

raw_basis_b : Monomial → GaloisRingElement basis_b
raw_basis_b x =
    from_coefs ((x.c0 * 16038 + x.c1 * 45700 + x.c2 * 28361 + x.c3 * 37176) % 65536)
      ((x.c0 * 45700 + x.c1 * 28361 + x.c2 * 37176 + x.c3 * 61738) % 65536)
      ((x.c0 * 28361 + x.c1 * 37176 + x.c2 * 61738 + x.c3 * 8525) % 65536)
      ((x.c0 * 37176 + x.c1 * 61738 + x.c2 * 8525 + x.c3 * 1) % 65536)

to_basis_b-raw : (x : Monomial) → to_basis_b x ≡ raw_basis_b x
unfolding to_basis_b raw_basis_b ◌+%◌ ◌*%◌ wrapping_add wrapping_mul
to_basis_b-raw x = same_element (omega arith) (omega arith) (omega arith) (omega arith)

-- Before or after a product, the change to the basis B gives the same first coefficient: as a dot
-- product with the changed factor, or of the changed product.
pub dot_coefs-to_basis_b : (x y : Monomial) → dot_coefs x (to_basis_b y) ≡ (to_basis_b (mul x y)).c0
unfolding raw_basis_b
dot_coefs-to_basis_b x y =
    rw (to_basis_b-raw y, to_basis_b-raw (mul x y), mul-reduce x y)
      (omega (
        arith,
        mul-mod-mod x.c0 (y.c0 * 16038 + y.c1 * 45700 + y.c2 * 28361 + y.c3 * 37176) 65536,
        mul-mod-mod x.c1 (y.c0 * 45700 + y.c1 * 28361 + y.c2 * 37176 + y.c3 * 61738) 65536,
        mul-mod-mod x.c2 (y.c0 * 28361 + y.c1 * 37176 + y.c2 * 61738 + y.c3 * 8525) 65536,
        mul-mod-mod x.c3 (y.c0 * 37176 + y.c1 * 61738 + y.c2 * 8525 + y.c3 * 1) 65536,
      ))

-- The change of an element in the monomial basis to the basis B is that of the sum of changes.
pub to_basis_b-add :
    (x y : Monomial) → (to_basis_b (add x y)).c0 ≡ ((to_basis_b x).c0 + (to_basis_b y).c0) % 2 ^ 16
unfolding to_basis_b add ◌+%◌ ◌*%◌ wrapping_add wrapping_mul
to_basis_b-add x y = omega arith
