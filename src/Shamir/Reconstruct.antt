-- ===== src/Shamir/Reconstruct.antt =====
-- The Lagrange coefficients of degree 2 recover products of shared secrets.
use native.Mathlib.Nat.{mod-add-mod}
use iris_mpc.Prelude.{ℕ, ◌+◌, ◌*◌, ◌%◌, ◌≡◌, ◌∙◌, refl, List, some, none, arith}
use iris_mpc.Prelude.Modular.{mod_three, mod-mul-mod, mul-mod-mod, mod-eq_of_multiples}
use iris_mpc.Id.{id0, id1, id2, to_usize, Trio}
use iris_mpc.Shamir.{
  prime, random_fp, line, share_d1, my_lagrange_coeff_d2, lagrange_round, mod_inverse,
  extended_euclid_rev, euclid_loop,
}

coefficients :
    (my_lagrange_coeff_d2 id0 ≡ some 3)
    × (my_lagrange_coeff_d2 id1 ≡ some 65516)
    × (my_lagrange_coeff_d2 id2 ≡ some 1)
unfolding my_lagrange_coeff_d2 lagrange_round to_usize mod_inverse extended_euclid_rev euclid_loop
coefficients = (refl, refl, refl)

-- The shares lie on a line through the secret.
line_lem :
    (s c : ℕ)
    → line s c
      ≡ record { p0 = (s + c) % prime; p1 = (s + c + c) % prime; p2 = (s + c + c + c) % prime }
unfolding line
line_lem s c = rw (mod-add-mod (s + c) prime c) (rw (mod-add-mod (s + c + c) prime c) refl)

share_d1_lem :
    (s : ℕ) (rng rest : List ℕ) (u : Trio ℕ)
    → share_d1 s rng ≡ some (u, rest)
    → (c : ℕ) × (u ≡ line s c)
unfolding share_d1
share_d1_lem s rng rest u e =
    elim (random_fp rng) as (λ d. random_fp rng ≡ d → (c : ℕ) × (u ≡ line s c)) [
      | none ↦ λ d. absurd (ground (arith, d))
      | some (c, after) ↦ λ d. (c, ground (arith, d))
    ]
      refl

-- One weighted product of shares.
weighted : (x y l : ℕ) → ((x % prime * (y % prime)) % prime * l) % prime ≡ (x * y * l) % prime
weighted x y l =
    let e : (x % prime * (y % prime)) % prime ≡ (x * y) % prime =
      mul-mod-mod (x % prime) y prime ∙ mod-mul-mod x y prime in
    rw e (mod-mul-mod (x * y) l prime)

parabola :
    (s t c d : ℕ)
    → (s + c) * (t + d) * 3
        + (s + c + c) * (t + d + d) * 65516
        + (s + c + c + c) * (t + d + d + d) * 1
        + 0 * prime
      ≡ s * t + (s + c + c) * (t + d + d) * prime
parabola s t c d = grind arith

-- What the parties' products of shares, weighted, add up to.
abbrev pub interpolated : Trio ℕ → Trio ℕ → ℕ → ℕ → ℕ → ℕ
interpolated u v l0 l1 l2 =
    (((u.p0 * v.p0) % prime * l0) % prime
      + ((u.p1 * v.p1) % prime * l1) % prime
      + ((u.p2 * v.p2) % prime * l2) % prime)
    % prime

lines : (s t c d : ℕ) → interpolated (line s c) (line t d) 3 65516 1 ≡ (s * t) % prime
lines s t c d =
    rw (line_lem s c, line_lem t d)
      (rw
        (
          weighted (s + c) (t + d) 3,
          weighted (s + c + c) (t + d + d) 65516,
          weighted (s + c + c + c) (t + d + d + d) 1,
        )
        (mod_three prime ((s + c) * (t + d) * 3) ((s + c + c) * (t + d + d) * 65516)
            ((s + c + c + c) * (t + d + d + d) * 1)
          ∙ mod-eq_of_multiples prime 0 ((s + c + c) * (t + d + d)) _ _ (parabola s t c d)))

-- When two secrets are shared with any draws, the parties' products of their two shares, weighted by
-- their coefficients of degree 2 and added up modulo the prime, are the product of the secrets.
pub share_d1-my_lagrange_coeff_d2 :
    (s t : ℕ) (rng rng1 rng2 : List ℕ) (u v : Trio ℕ) (l0 l1 l2 : ℕ)
    → share_d1 s rng ≡ some (u, rng1)
    → share_d1 t rng1 ≡ some (v, rng2)
    → my_lagrange_coeff_d2 id0 ≡ some l0
    → my_lagrange_coeff_d2 id1 ≡ some l1
    → my_lagrange_coeff_d2 id2 ≡ some l2
    → interpolated u v l0 l1 l2 ≡ (s * t) % prime
share_d1-my_lagrange_coeff_d2 s t rng rng1 rng2 u v l0 l1 l2 hs ht h0 h1 h2 =
    let (c, eu) = share_d1_lem s rng rng1 u hs in
    let (d, ev) = share_d1_lem t rng1 rng2 v ht in
    let (k0, k1, k2) = coefficients in
    let e0 : l0 ≡ 3 = cc in
    let e1 : l1 ≡ 65516 = cc in let e2 : l2 ≡ 1 = cc in rw (eu, ev, e0, e1, e2) (lines s t c d)
