-- ===== src/Protocol/Lift/Bits.antt =====
-- The two vectors of carries, bit by bit.
use iris_mpc.Prelude.{
  ℕ, zero, suc, ◌+◌, ◌*◌, ◌/◌, ◌%◌, ◌^◌, ◌<◌, ◌≤◌, ◌≡◌, ◌∙◌, refl, sym, ap, ap₂, ◌++◌, take,
  tabulate, take-tabulate, tabulate-append, arith,
}
use mathlib.Core.List.{flat_map}
use iris_mpc.Prelude.Bits.{bit_at, to_nat, to_nat-odd}
use iris_mpc.Shares.RingElement.{get_bit_as_bit}
use iris_mpc.Shares.Sharing.Bits.{bits_of, odd-shift, get_bit_as_bit-bit_at}

-- Bit `i` of the words, from the first word on.
abbrev pub word_bit : (ℕ → ℕ) → ℕ → ℕ
word_bit w i = to_nat (bit_at (w (i / 64)) (i % 64))

same_place :
    (w : ℕ → ℕ) {j j' b b' : ℕ}
    → j ≡ j'
    → b ≡ b'
    → to_nat (bit_at (w j) b) ≡ to_nat (bit_at (w j') b')
same_place w = ap₂ (λ j b. to_nat (bit_at (w j) b))

bits_of-tabulate : (n : ℕ) (w : ℕ → ℕ) → bits_of 64 (tabulate n w) ≡ tabulate (64 * n) (word_bit w)
unfolding tabulate flat_map
bits_of-tabulate zero w = refl
bits_of-tabulate (suc n) w =
    ap (λ r. tabulate 64 (get_bit_as_bit (w 0)) ++ r) (bits_of-tabulate n (λ j. w (suc j)))
    ∙ tabulate-append 64 (64 * n) (get_bit_as_bit (w 0)) (word_bit (λ j. w (suc j))) (word_bit w)
        (λ i lt. get_bit_as_bit-bit_at (w 0) i ∙ here i lt)
        (λ i.
          same_place w {j = suc (i / 64)} {j' = (64 + i) / 64} {b = i % 64} {b' = (64 + i) % 64}
            (omega arith) (omega arith))
    ∙ ap (λ m. tabulate m (word_bit w)) {x = 64 + 64 * n} {y = 64 * suc n} (omega arith)
  where
    here : (i : ℕ) → i < 64 → to_nat (bit_at (w 0) i) ≡ word_bit w i
    here i lt = same_place w {j = 0} {j' = i / 64} {b = i} {b' = i % 64} (omega arith) (omega arith)

pub first_bits-tabulate :
    (n k : ℕ) (w : ℕ → ℕ)
    → k ≤ 64 * n
    → take k (bits_of 64 (tabulate n w)) ≡ tabulate k (word_bit w)
first_bits-tabulate n k w h =
    ap (take k) (bits_of-tabulate n w) ∙ take-tabulate k (64 * n) (word_bit w) h

-- A bit as a digit.
pub bit_at-digit : (a i : ℕ) → to_nat (bit_at a i) ≡ a / 2 ^ i % 2
bit_at-digit a i = ap to_nat (sym (odd-shift a i)) ∙ to_nat-odd (a / 2 ^ i)
