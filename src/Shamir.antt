-- ===== src/Shamir.antt =====
-- iris-mpc-common/src/shamir/mod.rs: Shamir sharing of degree 1 and 2 among three parties, modulo a
-- prime of 16 bits.
pub mod Reconstruct
pub mod Inverse
use iris_mpc.Prelude.{
  ℕ, zero, suc, ◌+◌, ◌-◌, ◌*◌, ◌/◌, ◌%◌, List, [], ◌∷◌, Option, none, some, ltb, ◌==◌,
  if◌then◌else◌,
}
use iris_mpc.Id.{PartyId, to_usize, Trio}

-- `P` and `P32`. All products of the source are of factors below it, and fit 32 bits.
abbrev pub prime : ℕ
prime = 65519

-- The first number of the generator that is below the prime, and the generator after it. A generator
-- is the list of the numbers of 16 bits that it gives; `none`: it gave no such number.
unfoldable pub random_fp : List ℕ → Option (ℕ × List ℕ)
random_fp [] = none
random_fp (r ∷ rng) = let rest = random_fp rng in if ltb r prime then some (r, rng) else rest

-- The loop of `extended_euclid_rev`, for at most `fuel` rounds; `none`: they were not enough.
unfoldable pub euclid_loop : ℕ → ℕ → ℕ → ℕ → ℕ → Option (ℕ × ℕ)
euclid_loop fuel r0 zero s0 s1 = some (r0, s0)
euclid_loop zero r0 (suc r1) s0 s1 = none
euclid_loop (suc fuel) r0 (suc r1) s0 s1 =
    let q = r0 / suc r1 in
    euclid_loop fuel (suc r1) ((r0 + prime - (q * suc r1) % prime) % prime) s1
      ((s0 + prime - (q * s1) % prime) % prime)

unfoldable pub extended_euclid_rev : ℕ → ℕ → Option (ℕ × ℕ)
unfolding euclid_loop
extended_euclid_rev a b = euclid_loop (suc a) b a 0 1

unfoldable pub mod_inverse : ℕ → Option ℕ
unfolding extended_euclid_rev
mod_inverse x = elim (extended_euclid_rev x prime) [ none ↦ none | some (r, inv) ↦ some inv ]

-- The shares for the coefficient that was drawn.
unfoldable pub line : ℕ → ℕ → Trio ℕ
line secret coeff =
    let share0 = (secret + coeff) % prime in
    let share1 = (share0 + coeff) % prime in
    let share2 = (share1 + coeff) % prime in record { p0 = share0; p1 = share1; p2 = share2 }

unfoldable pub share_d1 : ℕ → List ℕ → Option (Trio ℕ × List ℕ)
unfolding random_fp line
share_d1 secret rng = elim (random_fp rng) [
  | none ↦ none
  | some (coeff, rest) ↦ some (line secret coeff, rest)
]

-- One round of the loop over `j`, on the numerator and the denominator.
unfoldable pub lagrange_round : ℕ → ℕ → ℕ × ℕ → ℕ × ℕ
lagrange_round i j (num, den) =
    if i == j then (num, den) else ((num * j) % prime, ((den * ((j + prime - i) % prime)) % prime))

unfoldable pub my_lagrange_coeff_d2 : PartyId → Option ℕ
unfolding to_usize lagrange_round mod_inverse
my_lagrange_coeff_d2 id =
    let i = to_usize id + 1 in
    let (num, den) = lagrange_round i 3 (lagrange_round i 2 (lagrange_round i 1 (1, 1))) in
    elim (mod_inverse den) [ none ↦ none | some inv ↦ some ((num * inv) % prime) ]
