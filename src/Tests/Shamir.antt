-- ===== src/Tests/Shamir.antt =====
-- Shamir sharing at concrete secrets.
use iris_mpc.Prelude.{ℕ, ◌*◌, ◌%◌, ◌≡◌, refl, List, [], ◌∷◌, some, arith}
use iris_mpc.Id.{id0, id1, id2, to_usize, Trio}
use iris_mpc.Shamir.{
  prime, random_fp, line, share_d1, my_lagrange_coeff_d2, lagrange_round, mod_inverse,
  extended_euclid_rev, euclid_loop,
}
use iris_mpc.Shamir.Reconstruct.{interpolated, share_d1-my_lagrange_coeff_d2}
use iris_mpc.Shamir.Inverse.{mod_inverse_lem}

-- The first draw is too large, and is drawn again.
abbrev draws : List ℕ
draws = 65530 ∷ 1000 ∷ 2000 ∷ []

abbrev first : Trio ℕ
first = record { p0 = 2234; p1 = 3234; p2 = 4234 }

abbrev second : Trio ℕ
second = record { p0 = 481; p1 = 2481; p2 = 4481 }

first_shared : share_d1 1234 draws ≡ some (first, 2000 ∷ [])
unfolding share_d1 random_fp line
first_shared = refl

second_shared : share_d1 64000 (2000 ∷ []) ≡ some (second, [])
unfolding share_d1 random_fp line
second_shared = refl

coefficient0 : my_lagrange_coeff_d2 id0 ≡ some 3
unfolding my_lagrange_coeff_d2 lagrange_round to_usize mod_inverse extended_euclid_rev euclid_loop
coefficient0 = refl

coefficient1 : my_lagrange_coeff_d2 id1 ≡ some 65516
unfolding my_lagrange_coeff_d2 lagrange_round to_usize mod_inverse extended_euclid_rev euclid_loop
coefficient1 = refl

coefficient2 : my_lagrange_coeff_d2 id2 ≡ some 1
unfolding my_lagrange_coeff_d2 lagrange_round to_usize mod_inverse extended_euclid_rev euclid_loop
coefficient2 = refl

share_d1-my_lagrange_coeff_d2_example : interpolated first second 3 65516 1 ≡ (1234 * 64000) % prime
share_d1-my_lagrange_coeff_d2_example =
    share_d1-my_lagrange_coeff_d2 1234 64000 draws (2000 ∷ []) [] first second 3 65516 1
      first_shared second_shared coefficient0 coefficient1 coefficient2

mod_inverse_example : (inv : ℕ) × (mod_inverse 12345 ≡ some inv) × ((12345 * inv) % prime ≡ 1)
mod_inverse_example = mod_inverse_lem 12345 (omega arith) (omega arith)
