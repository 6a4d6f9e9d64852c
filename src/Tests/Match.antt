-- ===== src/Tests/Match.antt =====
-- Two irises with full masks, compared by three local sessions.
use iris_mpc.Prelude.{
  ℕ, zero, suc, ◌+◌, ◌-◌, ◌*◌, ◌/◌, ◌%◌, ◌^◌, ◌<◌, ◌≡◌, ◌∙◌, sym, ap, Bool, true, arith,
}
use native.Mathlib.Nat.{pow-suc}
use iris_mpc.Prelude.Bits.{bit_at}
use iris_mpc.Network.Local.{here}
use iris_mpc.IrisCode.{zeros, ones, get_bit, flip_bit, is_close}
use iris_mpc.IrisCode.Arrays.{get_bit-bit_at}
use iris_mpc.Galois.{from_coefs}
use iris_mpc.GaloisEngine.Shares.{Encoded, shares_of}
use iris_mpc.Protocol.Compare.Correct.{AllAre}
use iris_mpc.Protocol.Distance.Plain.{HasPairs}
use iris_mpc.Protocol.Distance.Correct.{matches}
use iris_mpc.Protocol.Ends.{begin, EndsFrom}
use iris_mpc.Protocol.Ends.Match.{galois_ring_is_match_ends}
use iris_mpc.Tests.Setting.{toy, names, local, channels, channels-idle, local-IsReady}

power_of_two-positive : (k : ℕ) → 0 < 2 ^ k
power_of_two-positive zero = omega arith
power_of_two-positive (suc k) = omega (arith, pow-suc 2 k, power_of_two-positive k)

bit_at-ones : (k i : ℕ) → i < k → bit_at (2 ^ k - 1) i ≡ true
bit_at-ones zero i h = absurd (omega arith)
bit_at-ones (suc k) zero h = ground (arith, pow-suc 2 k, power_of_two-positive k)
bit_at-ones (suc k) (suc i) h =
    ap (λ n. bit_at n i) {x = (2 ^ suc k - 1) / 2} {y = 2 ^ k - 1}
      (omega (arith, pow-suc 2 k, power_of_two-positive k))
    ∙ bit_at-ones k i (omega arith)

get_bit-ones : (i : ℕ) → get_bit ones i ≡ true
get_bit-ones i = get_bit-bit_at ones i ∙ bit_at-ones 64 (i % 64) (omega arith)

ones-HasPairs : HasPairs ones
ones-HasPairs j h = get_bit-ones (2 * j + 1) ∙ sym (get_bit-ones (2 * j))

-- An iris whose bits are zeros, and one that differs from it at one position.
abbrev blank : Encoded
blank = record {
  iris = record { code = zeros; mask = ones };
  code_random = λ i. from_coefs i 1 2 3;
  mask_random = λ i. from_coefs 4 i 5 6;
}

abbrev marked : Encoded
marked = record {
  iris = record { code = flip_bit zeros 6401; mask = ones };
  code_random = λ i. from_coefs 7 8 i 9;
  mask_random = λ i. from_coefs 10 11 12 i;
}

galois_ring_is_match_ends_example :
    EndsFrom {B = toy.Bytes} {A = Bool} names
      (begin (matches (shares_of blank) (shares_of marked)) local channels)
      (AllAre (is_close blank.iris marked.iris))
galois_ring_is_match_ends_example =
    galois_ring_is_match_ends names local channels blank marked
      (begin (matches (shares_of blank) (shares_of marked)) local channels) ones-HasPairs
      ones-HasPairs local-IsReady channels-idle here
