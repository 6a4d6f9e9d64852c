-- ===== src/Shamir/Inverse.antt =====
-- The extended algorithm of Euclid finds inverses modulo the prime.
use native.Mathlib.Decide.{dec_lt}
use native.Mathlib.Nat.{
  div-add-mod, mod-lt, add-mod-mod, mul-le-mul, mul-le-mul_right, mul-mod_left, mul-mod_right,
}
use iris_mpc.Prelude.{
  ℕ, zero, suc, ◌+◌, ◌-◌, ◌*◌, ◌/◌, ◌%◌, ◌≡◌, ◌<◌, ◌≤◌, ◌∙◌, refl, sym, ap, some, arith, Bool, true,
  not, ◌&&◌, ◌==◌, ◌≢◌, ==_iff,
}
use iris_mpc.Prelude.Modular.{mul-mod-mod, add-mod_cancel}
use iris_mpc.Shamir.{prime, mod_inverse, extended_euclid_rev, euclid_loop}

-- The difference of the source, in which both numbers stay below the prime, is the remainder.
remainder_lem :
    (r0 n q : ℕ)
    → r0 ≤ prime
    → suc n < prime
    → q * suc n + r0 % suc n ≡ r0
    → r0 % suc n < suc n
    → (r0 + prime - (q * suc n) % prime) % prime ≡ r0 % suc n
remainder_lem r0 n q h k e l = omega arith

-- The difference of the source, plus what was taken off.
difference_lem : (s x : ℕ) → ((s + prime - x % prime) % prime + x) % prime ≡ s % prime
difference_lem s x = omega arith

module _ (a : ℕ) where
  -- One round keeps the coefficient of `a`.
  coefficient_lem :
      (r0 r1 q s0 s1 r : ℕ)
      → (a * s0) % prime ≡ r0 % prime
      → (a * s1) % prime ≡ r1 % prime
      → q * r1 + r ≡ r0
      → (a * ((s0 + prime - (q * s1) % prime) % prime)) % prime ≡ r % prime
  coefficient_lem r0 r1 q s0 s1 r h0 h1 e =
      let s = (s0 + prime - (q * s1) % prime) % prime in
      let taken : (q * (a * s1)) % prime ≡ (q * r1) % prime =
        sym (mul-mod-mod q (a * s1) prime)
        ∙ ap (λ t. (q * t) % prime) h1
        ∙ mul-mod-mod q r1 prime in
      let turn : q * (a * s1) ≡ a * (q * s1) = grind arith in
      let factor : a * s + a * (q * s1) ≡ a * (s + q * s1) = grind arith in
      let e1 : (q * r1) % prime ≡ (a * (q * s1)) % prime = sym taken ∙ ap (λ t. t % prime) turn in
      let e2 : (a * s + q * r1) % prime ≡ (a * (s + q * s1)) % prime =
        sym (add-mod-mod (a * s) (q * r1) prime)
        ∙ ap (λ t. (a * s + t) % prime) e1
        ∙ add-mod-mod (a * s) (a * (q * s1)) prime
        ∙ ap (λ t. t % prime) factor in
      let e3 : (a * (s + q * s1)) % prime ≡ r0 % prime =
        sym (mul-mod-mod a (s + q * s1) prime)
        ∙ ap (λ t. (a * t) % prime) (difference_lem s0 (q * s1))
        ∙ mul-mod-mod a s0 prime
        ∙ h0 in
      let whole : r0 ≡ r + q * r1 = omega (arith, e) in
      add-mod_cancel prime (q * r1) (a * s) r (e2 ∙ e3 ∙ ap (λ t. t % prime) whole)

  -- What the loop gives: a divisor of both numbers, and its coefficient.
  record Found (r0 r1 r s : ℕ) : Type 0 where
    times0 : ℕ
    times1 : ℕ
    divides0 : times0 * r ≡ r0
    divides1 : times1 * r ≡ r1
    coefficient : (a * s) % prime ≡ r % prime

  loop_lem :
      (fuel r0 r1 s0 s1 : ℕ)
      → r1 ≤ fuel
      → r0 ≤ prime
      → r1 < prime
      → (a * s0) % prime ≡ r0 % prime
      → (a * s1) % prime ≡ r1 % prime
      → (r : ℕ) × (s : ℕ) × (euclid_loop fuel r0 r1 s0 s1 ≡ some (r, s)) × Found r0 r1 r s
  unfolding euclid_loop
  loop_lem fuel r0 zero s0 s1 hf h k h0 h1 = (
    r0,
    s0,
    refl,
    record {
      times0 = 1;
      times1 = 0;
      divides0 = omega arith;
      divides1 = omega arith;
      coefficient = h0;
    },
  )
  loop_lem zero r0 (suc n) s0 s1 hf h k h0 h1 = absurd (omega arith)
  loop_lem (suc fuel) r0 (suc n) s0 s1 hf h k h0 h1 =
      let q = r0 / suc n in
      let r2 = r0 % suc n in
      let below : r2 < suc n = mod-lt r0 (omega arith) in
      let split : q * suc n + r2 ≡ r0 = grind (arith, div-add-mod r0 (suc n)) in
      let (r, s, e, f) =
        loop_lem fuel (suc n) r2 s1 ((s0 + prime - (q * s1) % prime) % prime) (omega arith)
          (omega arith) (omega arith) h1 (coefficient_lem r0 (suc n) q s0 s1 r2 h0 h1 split) in
      (
        r,
        s,
        rw (euclid_loop, remainder_lem r0 n q h k split below) e,
        record {
          times0 = q * f.times0 + f.times1;
          times1 = f.times0;
          divides0 = grind (arith, f.divides0, f.divides1, split);
          divides1 = f.divides0;
          coefficient = f.coefficient;
        },
      )

-- The numbers from 2 to `n`, none of which divides the prime.
none_divides : ℕ → Bool
none_divides zero = true
none_divides (suc zero) = true
none_divides (suc (suc n)) = not (prime % suc (suc n) == 0) && none_divides (suc n)

none_divides_lem : (n d : ℕ) → none_divides n ≡ true → 2 ≤ d → d ≤ n → prime % d ≢ 0
unfolding none_divides
none_divides_lem zero d h k l = absurd (omega arith)
none_divides_lem (suc zero) d h k l = absurd (omega arith)
none_divides_lem (suc (suc n)) d h k l = elim (dec_lt d (suc (suc n))) [
  | yes below ↦ none_divides_lem (suc n) d (ground arith) k (omega arith)
  | no top ↦
      let same : d ≡ suc (suc n) = omega arith in
      rw same (ground (arith, ==_iff (prime % suc (suc n)) 0))
]

checked : none_divides 255 ≡ true
unfolding none_divides
checked = refl

divisor-le : (a r u : ℕ) → 0 < a → u * r ≡ a → r ≤ a
divisor-le a r zero h f = absurd (omega arith)
divisor-le a r (suc u) h f =
    let once : 1 * r ≤ suc u * r = mul-le-mul_right r (omega arith) in omega (arith, once, f)

factor-pos : (t r : ℕ) → t * r ≡ prime → 0 < r
factor-pos t zero e = absurd (omega arith)
factor-pos t (suc r) e = omega arith

factor-large : (t r : ℕ) → t * r ≡ prime → r < prime → 2 ≤ t
factor-large zero r e h = absurd (omega arith)
factor-large (suc zero) r e h = absurd (omega arith)
factor-large (suc (suc t)) r e h = omega arith

-- Of two factors of the prime, one is below 256.
factor-small : (t r : ℕ) → t * r ≡ prime → ¬ r < 256 → t ≤ 255
factor-small t r e h = elim (dec_lt t 256) [
  | yes below ↦ omega arith
  | no large ↦
      let square : 256 * 256 ≤ t * r =
        mul-le-mul {n₁ = 256} {m₁ = 256} (omega arith) (omega arith) in
      absurd (omega (arith, square, e))
]

-- A number below the prime and the prime have no common divisor but 1.
coprime : (a r t u : ℕ) → 0 < a → a < prime → t * r ≡ prime → u * r ≡ a → r ≡ 1
coprime a r t u h k e f =
    let below : r < prime = omega (arith, divisor-le a r u h f) in
    elim (dec_lt r 2) [
      | yes small ↦ omega (arith, factor-pos t r e)
      | no large ↦ elim (dec_lt r 256) [
        | yes low ↦ absurd (
            none_divides_lem 255 r checked (omega arith) (omega arith)
              (rw (← e) (mul-mod_left t r)))
        | no high ↦ absurd (
            none_divides_lem 255 t checked (factor-large t r e below) (factor-small t r e high)
              (rw (← e) (mul-mod_right t r)))
      ]
    ]

-- For every number from 1 to below the prime, `mod_inverse` ends with its inverse modulo the prime.
pub mod_inverse_lem :
    (x : ℕ) → 0 < x → x < prime → (inv : ℕ) × (mod_inverse x ≡ some inv) × ((x * inv) % prime ≡ 1)
unfolding mod_inverse extended_euclid_rev
mod_inverse_lem x h k =
    let (r, s, e, f) =
      loop_lem x (suc x) prime x 0 1 (omega arith) (omega arith) k (omega arith) (omega arith) in
    (
      s,
      rw (mod_inverse, e),
      f.coefficient ∙ rw (coprime x r f.times0 f.times1 h k f.divides0 f.divides1) refl,
    )
