-- ===== src/Protocol/Extract/Top.antt =====
-- The adder's last row, for 32 positions.
use iris_mpc.Prelude.{ℕ, suc, ◌≡◌, [], ◌∷◌, ◌++◌, map, tabulate}
use iris_mpc.Prelude.Bits.{bit_at}
use iris_mpc.Id.{Trio}
use iris_mpc.Protocol.Adder.Slices.{Words}
use iris_mpc.Protocol.Adder.Summands.{sum_words, carry_words}
use iris_mpc.Protocol.Adder.Msb.{top_words}
use iris_mpc.Protocol.Adder.Columns.{total_at, top_words-bit}

pub top-bit :
    (j b : ℕ) (c : ℕ → Trio Words)
    → bit_at
        (top_words
          (sum_words (c 1))
          (sum_words (c 31))
          (carry_words (c 0))
          (carry_words (c 30))
          (map sum_words (tabulate 28 (λ i. c (suc (suc i))) ++ c 30 ∷ []))
          (map carry_words (c 1 ∷ tabulate 28 (λ i. c (suc (suc i)))))
          j)
        b
      ≡ bit_at (total_at j b (tabulate 32 c)) 31
unfolding tabulate
top-bit j b c = top_words-bit j b (c 0) (c 1) (c 30) (c 31) (tabulate 28 (λ i. c (suc (suc i))))
