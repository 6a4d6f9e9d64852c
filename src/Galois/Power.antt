-- ===== src/Galois/Power.antt =====
-- `pow` is repeated multiplication.
use iris_mpc.Prelude.{
  ℕ, zero, suc, ◌+◌, ◌-◌, ◌/◌, ◌%◌, ◌≤◌, ◌≡◌, ◌⊎◌, inl, inr, ◌∙◌, refl, sym, ap, true, false, ltb,
  ◌==◌, arith,
}
use iris_mpc.Galois.{Monomial, one_element, mul, pow, pow_loop}
use iris_mpc.Galois.Ring.{reduce, mul-reduce, mul-reduce_left, mul_comm, mul_assoc, same}

abbrev pub power : Monomial → ℕ → Monomial
power x zero = one_element
power x (suc n) = mul x (power x n)

one-mul : (x : Monomial) → mul one_element x ≡ reduce x
one-mul x = mul-reduce one_element x ∙ same (omega arith) (omega arith) (omega arith) (omega arith)

pub mul_swap : (x y z : Monomial) → mul x (mul y z) ≡ mul y (mul x z)
mul_swap x y z = sym (mul_assoc x y z) ∙ ap (λ w. mul w z) (mul_comm x y) ∙ mul_assoc y x z

reduce-mul : (x y : Monomial) → reduce (mul x y) ≡ mul x y
reduce-mul x y = rw (mul-reduce x y) (same (omega arith) (omega arith) (omega arith) (omega arith))

pub reduce-power : (x : Monomial) (n : ℕ) → reduce (power x n) ≡ power x n
reduce-power x zero = refl
reduce-power x (suc n) = reduce-mul x (power x n)

pub power_add : (x : Monomial) (m n : ℕ) → mul (power x m) (power x n) ≡ power x (m + n)
power_add x zero n =
    one-mul (power x n) ∙ reduce-power x n ∙ ap (power x) {x = n} {y = zero + n} (omega arith)
power_add x (suc m) n =
    mul_assoc x (power x m) (power x n)
    ∙ ap (mul x) (power_add x m n)
    ∙ ap (power x) {x = suc (m + n)} {y = suc m + n} (omega arith)

power-square : (x : Monomial) (n : ℕ) → power (mul x x) n ≡ power x (n + n)
power-square x zero = refl
power-square x (suc n) =
    ap (mul (mul x x)) (power-square x n)
    ∙ mul_assoc x x (power x (n + n))
    ∙ ap (power x) {x = suc (suc (n + n))} {y = suc n + suc n} (omega arith)

one_more : (x y : Monomial) → mul x y ≡ mul (power x 1) y
one_more x y =
    sym (mul-reduce_left x y) ∙ ap (λ z. mul z y) (sym (one-mul x) ∙ mul_comm one_element x)

even_turn : (x y : Monomial) (h : ℕ) → mul (power (mul x x) h) y ≡ mul (power x (h + h)) y
even_turn x y h = ap (λ z. mul z y) (power-square x h)

odd_turn :
    (x y : Monomial) (h : ℕ) → mul (power (mul x x) h) (mul x y) ≡ mul (power x (suc (h + h))) y
odd_turn x y h =
    mul_swap (power (mul x x) h) x y
    ∙ sym (mul_assoc x (power (mul x x) h) y)
    ∙ ap (λ z. mul (mul x z) y) (power-square x h)

-- What is left of an exponent.
data Exponent (exp : ℕ) : Type 0 where
  one : exp ≡ 1 → Exponent exp
  even :
      2 ≤ exp → ltb 1 exp ≡ true → (exp % 2 == 1) ≡ false → exp / 2 + exp / 2 ≡ exp → Exponent exp
  odd :
      2 ≤ exp
      → ltb 1 exp ≡ true
      → (exp % 2 == 1) ≡ true
      → suc ((exp - 1) / 2 + (exp - 1) / 2) ≡ exp
      → Exponent exp

exponent : (exp : ℕ) → 1 ≤ exp → Exponent exp
exponent zero h = absurd (omega arith)
exponent (suc zero) h = one refl
exponent (suc (suc n)) h = elim (parity (suc (suc n))) [
  | inl e ↦ even (omega arith) (ground arith) (ground (arith, e)) (omega (arith, e))
  | inr e ↦ odd (omega arith) (ground arith) (ground (arith, e)) (omega (arith, e))
]
  where
    parity : (a : ℕ) → (a % 2 ≡ 0) ⊎ (a % 2 ≡ 1)
    parity a = omega arith

-- The loop multiplies `y` by the power.
pow_loop_lem :
    (fuel : ℕ) (x y : Monomial) (exp : ℕ)
    → 1 ≤ exp
    → exp ≤ suc fuel
    → pow_loop fuel x y exp ≡ mul (power x exp) y
pow_loop_lem zero x y exp h g = let e : exp ≡ 1 = omega arith in rw e (one_more x y)
pow_loop_lem (suc fuel) x y exp h g = elim (exponent exp h) [
  | one e ↦ rw e (one_more x y)
  | even lt more e whole ↦
      let ih = pow_loop_lem fuel (mul x x) y (exp / 2) (omega arith) (omega arith) in
      rw (pow_loop, more, e) (ih ∙ even_turn x y (exp / 2) ∙ ap (λ n. mul (power x n) y) whole)
  | odd lt more e whole ↦
      let ih = pow_loop_lem fuel (mul x x) (mul x y) ((exp - 1) / 2) (omega arith) (omega arith) in
      rw (pow_loop, more, e) (ih ∙ odd_turn x y ((exp - 1) / 2) ∙ ap (λ n. mul (power x n) y) whole)
]

-- For every exponent the loop of `pow` ends, and the result is the power by repeated
-- multiplication.
pub pow-power : (x : Monomial) (exp : ℕ) → pow x exp ≡ power x exp
unfolding pow
pow-power x zero = refl
pow-power x (suc n) =
    let e : (suc n == 0) ≡ false = ground arith in
    rw (pow, e)
      (pow_loop_lem (suc n) x one_element (suc n) (omega arith) (omega arith)
        ∙ mul_comm (power x (suc n)) one_element
        ∙ one-mul (power x (suc n))
        ∙ reduce-power x (suc n))
