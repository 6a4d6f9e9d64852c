-- ===== src/Protocol/Distance/Plain.antt =====
-- The comparison of the scores is the comparison of the irises in the clear.
use iris_mpc.Prelude.{ℕ, ◌+◌, ◌*◌, ◌<◌, ◌≡◌, ◌∙◌, sym, ap, ap₂, Bool, not, ◌&&◌, ltb, arith}
use iris_mpc.Prelude.Bits.{xor, to_nat}
use iris_mpc.Prelude.Sums.{sum_below, sum-agree, sum-add, sum-blocks}
use iris_mpc.IrisCode.{IrisCodeArray, IrisCode, get_bit, bitand, bitxor, get_distance, is_close}
use iris_mpc.IrisCode.Arrays.{get_bit-bitand, get_bit-bitxor, count_ones_lem}
use iris_mpc.GaloisEngine.Counts.{both_set, differ, agree}
use iris_mpc.GaloisEngine.Order.{count-all, count-half}
use iris_mpc.GaloisEngine.Shares.{mask_score}
use iris_mpc.Protocol.Compare.{bound_a, bound_b}
use iris_mpc.Protocol.Distance.Score.{is_similar}

-- The bits of a mask come in pairs.
abbrev pub HasPairs : IrisCodeArray → Type 0
HasPairs mask = (j : ℕ) → j < 6400 → get_bit mask (2 * j + 1) ≡ get_bit mask (2 * j)

-- The number of positions at which a test holds.
abbrev positions : (ℕ → Bool) → ℕ
positions p = sum_below 12800 (λ k. to_nat (p k))

parts : (b c : Bool) → to_nat b ≡ to_nat (b && c) + to_nat (b && not c)
parts b c = ground arith

sum_of_two : (g : ℕ → ℕ) → sum_below 2 g ≡ g 0 + g 1
unfolding sum_below
sum_of_two g = omega arith

two_equal :
    (f : ℕ → ℕ)
    → ((j : ℕ) → j < 6400 → f (2 * j + 1) ≡ f (2 * j))
    → 2 * sum_below 6400 (λ j. f (2 * j)) ≡ sum_below 12800 f
two_equal f h =
    let g : ℕ → ℕ = λ j. f (2 * j) in
    let double : 2 * sum_below 6400 g ≡ sum_below 6400 g + sum_below 6400 g = omega arith in
    let pair : (j : ℕ) → j < 6400 → g j + g j ≡ sum_below 2 (λ b. f (2 * j + b)) = λ j hj. sym (
      sum_of_two (λ b. f (2 * j + b))
      ∙ ap₂ ◌+◌ (ap f {x = 2 * j + 0} {y = 2 * j} (omega arith)) (h j hj)) in
    double
    ∙ sym (sum-add 6400 g g)
    ∙ sum-agree 6400 (λ j. g j + g j) (λ j. sum_below 2 (λ b. f (2 * j + b))) pair
    ∙ sum-blocks 6400 2 f

module _ (x y : IrisCode) where
  both_set-parts : positions (both_set x y) ≡ positions (differ x y) + positions (agree x y)
  both_set-parts =
      sum-agree 12800 (λ k. to_nat (both_set x y k))
        (λ k. to_nat (differ x y k) + to_nat (agree x y k))
        (λ k _. parts (both_set x y k) (xor (get_bit x.code k) (get_bit y.code k)))
      ∙ sum-add 12800 (λ k. to_nat (differ x y k)) (λ k. to_nat (agree x y k))

  get_distance_lem : get_distance x y ≡ (positions (differ x y), positions (both_set x y))
  unfolding get_distance
  get_distance_lem =
      let mask = bitand x.mask y.mask in
      let code = bitand (bitxor x.code y.code) mask in
      ap₂ (λ (m n : ℕ). (m, n))
        (count_ones_lem code
          ∙ sum-agree 12800 (λ k. to_nat (get_bit code k)) (λ k. to_nat (differ x y k))
              λ k _.
                rw
                  (
                    get_bit-bitand (bitxor x.code y.code) mask k,
                    get_bit-bitxor x.code y.code k,
                    get_bit-bitand x.mask y.mask k,
                  )
                  (swapped (xor (get_bit x.code k) (get_bit y.code k)) (both_set x y k)))
        (count_ones_lem mask
          ∙ sum-agree 12800 (λ k. to_nat (get_bit mask k)) (λ k. to_nat (both_set x y k))
              (λ k _. ap to_nat (get_bit-bitand x.mask y.mask k)))
    where
      swapped : (b c : Bool) → to_nat (b && c) ≡ to_nat (c && b)
      swapped b c = ground arith

  module _ (hx : HasPairs x.mask) (hy : HasPairs y.mask) where
    mask_score-positions : mask_score x y ≡ positions (both_set x y)
    mask_score-positions =
        let f : ℕ → ℕ = λ k. to_nat (both_set x y k) in
        ap (λ n. 2 * n) (count-half (both_set x y))
        ∙ two_equal f (λ j h. ap₂ (λ a b. to_nat (a && b)) (hx j h) (hy j h))

    ratio :
        (m d g : ℕ)
        → m ≡ d + g
        → ltb (m * bound_a + d * bound_b) (g * bound_b) ≡ ltb (8 * d) (3 * m)
    ratio m d g e = ground arith

    -- For masks whose bits come in pairs, the comparison of the scores is `is_close`.
    pub is_similar-is_close : is_similar x y ≡ is_close x y
    unfolding is_close
    is_similar-is_close =
        rw (mask_score-positions, count-all (differ x y), count-all (agree x y), get_distance_lem)
          (ratio (positions (both_set x y)) (positions (differ x y)) (positions (agree x y))
            both_set-parts)
