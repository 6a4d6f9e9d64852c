-- ===== src/Galois/Inverse.antt =====
-- `inverse` gives inverses: the elements with an odd coefficient are units of order `15 * 2 ^ 15`.
use iris_mpc.Prelude.{
  ℕ, zero, suc, ◌+◌, ◌*◌, ◌/◌, ◌%◌, ◌^◌, ◌≡◌, ◌∙◌, refl, sym, ap, Bool, true, false, none, some,
  arith,
}
use native.Mathlib.Nat.{pow-suc, mod-mod}
use iris_mpc.Shares.RingElement.{wrapping_add, wrapping_mul}
use iris_mpc.Prelude.Modular.{mod-mul-mod, mul-mod-mod}
use iris_mpc.Prelude.Bits.{odd, to_nat, to_nat-odd}
use iris_mpc.Galois.{
  Monomial, from_coefs, one_element, ◌+%◌, ◌*%◌, mul, pow, inverse, all_even, exp_inverse,
}
use iris_mpc.Galois.Ring.{
  raw_add, raw_mul, reduce, same, mul-reduce, mul-reduce_left, mul-reduce_right, mul_comm,
}
use iris_mpc.Galois.Power.{power, reduce-power, power_add, pow-power}

-- `1 + d * y`, before any wrap-around.
abbrev one_plus : ℕ → Monomial → Monomial
one_plus d y = from_coefs (1 + d * y.c0) (d * y.c1) (d * y.c2) (d * y.c3)

abbrev scale : ℕ → Monomial → Monomial
scale e y = from_coefs (e * y.c0) (e * y.c1) (e * y.c2) (e * y.c3)

-- Squares, again and again.
abbrev squares : ℕ → Monomial → Monomial
squares zero x = x
squares (suc k) x = squares k (mul x x)

square_one_plus :
    (e : ℕ) (y : Monomial)
    → raw_mul (one_plus (2 * e) y) (one_plus (2 * e) y)
      ≡ one_plus (2 * (2 * e)) (raw_add y (scale e (raw_mul y y)))
square_one_plus e y = same (omega arith) (omega arith) (omega arith) (omega arith)

mul-reduce_both : (x : Monomial) → mul (reduce x) (reduce x) ≡ reduce (raw_mul x x)
mul-reduce_both x = mul-reduce_left x (reduce x) ∙ mul-reduce_right x x ∙ mul-reduce x x

squares-one_plus :
    (k e : ℕ) (y : Monomial)
    → (w : Monomial) × (squares k (reduce (one_plus (2 * e) y))
        ≡ reduce (one_plus (2 * (e * 2 ^ k)) w))
squares-one_plus zero e y =
    (y, ap (λ d. reduce (one_plus (2 * d) y)) {x = e} {y = e * 2 ^ 0} (omega arith))
squares-one_plus (suc k) e y =
    let (w, h) = squares-one_plus k (2 * e) (raw_add y (scale e (raw_mul y y))) in
    (
      w,
      ap (squares k) (mul-reduce_both (one_plus (2 * e) y) ∙ ap reduce (square_one_plus e y))
          ∙ h
          ∙ ap (λ d. reduce (one_plus (2 * d) w)) {x = 2 * e * 2 ^ k} {y = e * 2 ^ suc k}
              (omega (arith, ap (λ t. e * t) (pow-suc 2 k))),
    )

squares_end : (w : Monomial) → reduce (one_plus (2 * (1 * 2 ^ 15)) w) ≡ one_element
squares_end w = same (omega arith) (omega arith) (omega arith) (omega arith)

squares-power : (k : ℕ) (x : Monomial) (n : ℕ) → squares k (power x n) ≡ power x (n * 2 ^ k)
squares-power zero x n = ap (power x) {x = n} {y = n * 2 ^ 0} (omega arith)
squares-power (suc k) x n =
    ap (squares k) (power_add x n n)
    ∙ squares-power k x (n + n)
    ∙ ap (power x) {x = (n + n) * 2 ^ k} {y = n * 2 ^ suc k}
        (omega (arith, ap (λ t. n * t) (pow-suc 2 k)))

-- The coefficients modulo 2.
abbrev parity : Monomial → Monomial
parity x = from_coefs (x.c0 % 2) (x.c1 % 2) (x.c2 % 2) (x.c3 % 2)

parity-mul : (x y : Monomial) → parity (mul x y) ≡ parity (raw_mul (parity x) (parity y))
parity-mul x y =
    let w : (a b : ℕ) → ((a % 2) * (b % 2)) % 2 ≡ (a * b) % 2 =
      λ a b. mod-mul-mod a (b % 2) 2 ∙ mul-mod-mod a b 2 in
    rw (mul-reduce x y) (
      same (omega (arith, w x.c0 y.c0, w x.c1 y.c3, w x.c2 y.c2, w x.c3 y.c1))
        (omega (
          arith,
          w x.c0 y.c1,
          w x.c1 y.c0,
          w x.c1 y.c3,
          w x.c2 y.c2,
          w x.c3 y.c1,
          w x.c2 y.c3,
          w x.c3 y.c2,
        ))
        (omega
          (arith, w x.c0 y.c2, w x.c1 y.c1, w x.c2 y.c0, w x.c2 y.c3, w x.c3 y.c2, w x.c3 y.c3))
        (omega (arith, w x.c0 y.c3, w x.c1 y.c2, w x.c2 y.c1, w x.c3 y.c0, w x.c3 y.c3)))

parity-parity : (x : Monomial) → parity (parity x) ≡ parity x
parity-parity x = same (omega arith) (omega arith) (omega arith) (omega arith)

parity-power : (x : Monomial) (n : ℕ) → parity (power x n) ≡ parity (power (parity x) n)
parity-power x zero = refl
parity-power x (suc n) =
    parity-mul x (power x n)
    ∙ ap (λ p. parity (raw_mul (parity x) p)) (parity-power x n)
    ∙ ap (λ p. parity (raw_mul p (parity (power (parity x) n)))) (sym (parity-parity x))
    ∙ sym (parity-mul (parity x) (power (parity x) n))

abbrev from_bits : Bool → Bool → Bool → Bool → Monomial
from_bits b0 b1 b2 b3 = from_coefs (to_nat b0) (to_nat b1) (to_nat b2) (to_nat b3)

-- The field of 16 elements has 15 units.
units :
    (b0 b1 b2 b3 : Bool)
    → all_even (from_bits b0 b1 b2 b3) ≡ false
    → parity (power (from_bits b0 b1 b2 b3) 15) ≡ one_element
unfolding mul ◌+%◌ ◌*%◌ wrapping_add wrapping_mul
units true true true true h = refl
units true true true false h = refl
units true true false true h = refl
units true true false false h = refl
units true false true true h = refl
units true false true false h = refl
units true false false true h = refl
units true false false false h = refl
units false true true true h = refl
units false true true false h = refl
units false true false true h = refl
units false true false false h = refl
units false false true true h = refl
units false false true false h = refl
units false false false true h = refl
units false false false false h = absurd (ground arith)

parity-bits : (x : Monomial) → from_bits (odd x.c0) (odd x.c1) (odd x.c2) (odd x.c3) ≡ parity x
parity-bits x = same (to_nat-odd x.c0) (to_nat-odd x.c1) (to_nat-odd x.c2) (to_nat-odd x.c3)

all_even-parity : (x : Monomial) → all_even (parity x) ≡ all_even x
all_even-parity x = rw (mod-mod x.c0 2, mod-mod x.c1 2, mod-mod x.c2 2, mod-mod x.c3 2) refl

power_fifteen : (x : Monomial) → all_even x ≡ false → parity (power x 15) ≡ one_element
power_fifteen x h =
    let e = parity-bits x in
    parity-power x 15
    ∙ ap (λ p. parity (power p 15)) (sym e)
    ∙ units (odd x.c0) (odd x.c1) (odd x.c2) (odd x.c3) (ap all_even e ∙ all_even-parity x ∙ h)

-- An odd number and three even numbers are `1 + 2 * y`.
halves :
    (z : Monomial)
    → parity z ≡ one_element
    → z ≡ one_plus (2 * 1) (from_coefs (z.c0 / 2) (z.c1 / 2) (z.c2 / 2) (z.c3 / 2))
halves z h =
    let e0 : z.c0 % 2 ≡ 1 = ap (λ p. p.c0) h in
    let e1 : z.c1 % 2 ≡ 0 = ap (λ p. p.c1) h in
    let e2 : z.c2 % 2 ≡ 0 = ap (λ p. p.c2) h in
    let e3 : z.c3 % 2 ≡ 0 = ap (λ p. p.c3) h in
    same (omega arith) (omega arith) (omega arith) (omega arith)

power-order : (x : Monomial) → all_even x ≡ false → power x (15 * 2 ^ 15) ≡ one_element
power-order x h =
    let z = power x 15 in
    let (w, e) = squares-one_plus 15 1 (from_coefs (z.c0 / 2) (z.c1 / 2) (z.c2 / 2) (z.c3 / 2)) in
    sym (squares-power 15 x 15)
    ∙ ap (squares 15) (sym (reduce-power x 15) ∙ ap reduce (halves z (power_fifteen x h)))
    ∙ e
    ∙ squares_end w

-- An element of which not all coefficients are even has an inverse, the computed one, and for all
-- other elements the computation is an error.
pub inverse-mul :
    (x : Monomial)
    → (all_even x ≡ false → (v : Monomial) × (inverse x ≡ some v) × (mul v x ≡ one_element))
      × (all_even x ≡ true → inverse x ≡ none)
unfolding inverse
inverse-mul x = (
  λ h. (
    pow x exp_inverse,
    rw (h) refl,
    mul_comm (pow x exp_inverse) x ∙ ap (mul x) (pow-power x exp_inverse) ∙ power-order x h,
  ),
  λ h. rw (h) refl,
)
