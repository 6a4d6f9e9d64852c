-- ===== src/IrisCode/Arrays.antt =====
-- What the operations on arrays do to single bits, and what `count_ones` counts.
use iris_mpc.Prelude.{ℕ, ◌+◌, ◌*◌, ◌/◌, ◌%◌, ◌^◌, ◌≡◌, ◌∙◌, sym, ap, ap₂, ◌==◌, ◌&&◌, arith}
use iris_mpc.Prelude.Bits.{bit_at, xor, to_nat, bit_at-bit_and, bit_at-bit_xor}
use iris_mpc.Prelude.Sums.{sum_below, sum-agree, sum-blocks}
use iris_mpc.Shares.Sharing.Bits.{bit_and_one, odd-shift}
use iris_mpc.IrisCode.{IrisCodeArray, get_bit, bitand, bitxor, count_ones}

pub get_bit-bit_at :
    (code : IrisCodeArray) (i : ℕ) → get_bit code i ≡ bit_at (code (i / 64)) (i % 64)
unfolding get_bit
get_bit-bit_at code i =
    ap (λ y. y == 1) (bit_and_one (code (i / 64) / 2 ^ (i % 64)))
    ∙ odd-shift (code (i / 64)) (i % 64)

pub get_bit-bitand :
    (x y : IrisCodeArray) (i : ℕ) → get_bit (bitand x y) i ≡ (get_bit x i && get_bit y i)
unfolding bitand
get_bit-bitand x y i =
    rw (get_bit-bit_at (bitand x y) i, get_bit-bit_at x i, get_bit-bit_at y i)
      (bit_at-bit_and (x (i / 64)) (y (i / 64)) (i % 64))

pub get_bit-bitxor :
    (x y : IrisCodeArray) (i : ℕ) → get_bit (bitxor x y) i ≡ xor (get_bit x i) (get_bit y i)
unfolding bitxor
get_bit-bitxor x y i =
    rw (get_bit-bit_at (bitxor x y) i, get_bit-bit_at x i, get_bit-bit_at y i)
      (bit_at-bit_xor (x (i / 64)) (y (i / 64)) (i % 64))

same_bit :
    (code : IrisCodeArray) {w w' b b' : ℕ}
    → w ≡ w'
    → b ≡ b'
    → to_nat (bit_at (code w) b) ≡ to_nat (bit_at (code w') b')
same_bit code = ap₂ (λ w b. to_nat (bit_at (code w) b))

-- `count_ones` counts the positions below 12,800 whose bit is set.
pub count_ones_lem :
    (code : IrisCodeArray) → count_ones code ≡ sum_below 12800 (λ i. to_nat (get_bit code i))
unfolding count_ones
count_ones_lem code =
    sum-agree 200 (λ w. sum_below 64 (λ b. to_nat (bit_at (code w) b)))
      (λ w. sum_below 64 (λ b. to_nat (get_bit code (64 * w + b))))
      (λ w hw.
        sum-agree 64 (λ b. to_nat (bit_at (code w) b)) (λ b. to_nat (get_bit code (64 * w + b)))
          λ b hb.
            same_bit code {w = w} {w' = (64 * w + b) / 64} {b = b} {b' = (64 * w + b) % 64}
              (omega arith) (omega arith)
            ∙ ap to_nat (sym (get_bit-bit_at code (64 * w + b))))
    ∙ sum-blocks 200 64 (λ i. to_nat (get_bit code i))
