-- ===== src/Protocol/Adder/Summands.antt =====
-- The rows of sums and of carries that both adders start from.
use iris_mpc.Prelude.{ℕ, List, map, zip_with, zip_with-map}
use iris_mpc.Id.{Trio}
use iris_mpc.Shares.Share.{Share}
use iris_mpc.Protocol.Adder.Circuit.{sum_bit, carry_bit}
use iris_mpc.Protocol.Adder.Slices.{Words, xor_words, and_words, xor_trios}
use iris_mpc.Protocol.Adder.Rows.{Rows, xor-Rows}

abbrev pub sum_words : Trio Words → Words
sum_words = sum_bit xor_words and_words

abbrev pub carry_words : Trio Words → Words
carry_words = carry_bit xor_words and_words

-- Three rows of shared words, which share the three components of `ts`.
pub record Summands (n : ℕ) (us1 us2 us3 : List (List (Trio Share))) (ts : List (Trio Words))
    : Type 0 where
  pub first : Rows n us1 (map (λ t. t.p0) ts)
  pub second : Rows n us2 (map (λ t. t.p1) ts)
  pub third : Rows n us3 (map (λ t. t.p2) ts)

module _ {n : ℕ} {us1 us2 us3 : List (List (Trio Share))} {ts : List (Trio Words)}
    (h : Summands n us1 us2 us3 ts) where
  pub second_third-Rows : Rows n (zip_with xor_trios us2 us3) (map (λ t. xor_words t.p1 t.p2) ts)
  second_third-Rows =
      rw (zip_with-map xor_words (λ t. t.p1) (λ t. t.p2) ts) at (xor-Rows h.second h.third)

  pub first_third-Rows : Rows n (zip_with xor_trios us1 us3) (map (λ t. xor_words t.p0 t.p2) ts)
  first_third-Rows =
      rw (zip_with-map xor_words (λ t. t.p0) (λ t. t.p2) ts) at (xor-Rows h.first h.third)

  pub sums-Rows : Rows n (zip_with xor_trios us1 (zip_with xor_trios us2 us3)) (map sum_words ts)
  sums-Rows =
      rw (zip_with-map xor_words (λ t. t.p0) (λ t. xor_words t.p1 t.p2) ts) at
        (xor-Rows h.first second_third-Rows)
