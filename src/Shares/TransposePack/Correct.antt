-- ===== src/Shares/TransposePack/Correct.antt =====
-- Bit `b` of the word `j` of row `r` is bit `r` of the share that stands at `size * j + b`.
use iris_mpc.Prelude.{
  ℕ, zero, suc, ◌+◌, ◌-◌, ◌*◌, ◌/◌, ◌^◌, ◌≤◌, ◌<◌, ◌≡◌, ◌∙◌, inl, inr, ap, List, Option, some,
  length-tabulate, tabulate, arith,
}
use native.Mathlib.Nat.{mul_comm, mul-div_cancel}
use iris_mpc.Prelude.Bits.{bit_at}
use iris_mpc.Shares.Share.{Share, zero_share}
use iris_mpc.Shares.Sharing.Linear.{mod-lt-pow}
use iris_mpc.Shares.Transpose.Within.{AreWithin, IsTransposed}
use iris_mpc.Shares.TransposePack.{transpose_pack}
use iris_mpc.Shares.TransposePack.Tables.{padded, resize-tabulate, chunks-tabulate}
use iris_mpc.Shares.TransposePack.Filled.{
  filled, place_chunks-tabulate, filled-start, row_or_rest, filled-out,
}

-- The number of chunks of `size` shares that `k` shares take.
abbrev pub chunk_count : ℕ → ℕ → ℕ
chunk_count size k = (k + (size - 1)) / size

-- `l` rows, of which the first `n` are the bits of the shares `f`, of which there are `k`, then
-- zeros up to a multiple of `size`. The other rows are zeros.
pub record ArePacked (n size l k : ℕ) (f : ℕ → Share) (res : Option (List (List Share)))
    : Type 0 where
  pub rows : ℕ → ℕ → Share
  pub made : res ≡ some (tabulate l (λ r. tabulate (chunk_count size k) (rows r)))
  pub a :
      (r j b : ℕ)
      → r < n
      → j < chunk_count size k
      → b < size
      → bit_at (rows r j).a b ≡ bit_at (padded k f zero_share (size * j + b)).a r
  pub b :
      (r j b : ℕ)
      → r < n
      → j < chunk_count size k
      → b < size
      → bit_at (rows r j).b b ≡ bit_at (padded k f zero_share (size * j + b)).b r
  pub within :
      (r j : ℕ) → j < chunk_count size k → ((rows r j).a < 2 ^ size) × ((rows r j).b < 2 ^ size)
  pub rest : (r : ℕ) → n ≤ r → rows r ≡ (λ _. zero_share)

padded-lt :
    (m : ℕ) (p : Share → ℕ) (k : ℕ) (f : ℕ → Share) (x : Share)
    → ((i : ℕ) → p (f i) < m)
    → p x < m
    → (i : ℕ) → p (padded k f x i) < m
padded-lt m p zero f x h hx i = hx
padded-lt m p (suc k) f x h hx zero = h 0
padded-lt m p (suc k) f x h hx (suc i) = padded-lt m p k (λ i. f (suc i)) x (λ i. h (suc i)) hx i

padded-AreWithin : (n k : ℕ) (f : ℕ → Share) → AreWithin n f → AreWithin n (padded k f zero_share)
unfolding zero_share
padded-AreWithin n k f h = record {
  a = padded-lt (2 ^ n) (λ s. s.a) k f zero_share h.a (omega (arith, h.a 0));
  b = padded-lt (2 ^ n) (λ s. s.b) k f zero_share h.b (omega (arith, h.b 0));
}

module _ (transpose : List Share → Option (List Share)) (n size : ℕ) (pos : 0 < size)
    (right : (f : ℕ → Share)
      → AreWithin n f
      → IsTransposed n size f (transpose (tabulate size f))) where
  zeros-lt : (w : ℕ) → (zero_share.a < 2 ^ w) × (zero_share.b < 2 ^ w)
  unfolding zero_share
  zeros-lt w = (omega (arith, mod-lt-pow w 0), omega (arith, mod-lt-pow w 0))

  pub transpose_pack-ArePacked :
      (l k : ℕ) (f : ℕ → Share)
      → AreWithin n f
      → ArePacked n size l k f (transpose_pack transpose size l (tabulate k f))
  unfolding transpose_pack
  transpose_pack-ArePacked l k f h =
      let len = chunk_count size k in
      let g = padded k f zero_share in
      let word : ℕ → ℕ → Share = λ j b. g (size * j + b) in
      let within : AreWithin n g = padded-AreWithin n k f h in
      let trans : (j : ℕ) → IsTransposed n size (word j) (transpose (tabulate size (word j))) = λ j.
        right (word j)
          (record { a = λ b. within.a (size * j + b); b = λ b. within.b (size * j + b) }) in
      let words : ℕ → ℕ → Share = λ j. (trans j).rows in
      let rows = filled n len 0 words (λ _ _. zero_share) in
      let filled_row : (r j : ℕ) → r < n → j < len → rows r j ≡ words j r =
        λ r j hr hj. filled-start n len words (λ _ _. zero_share) r j hr hj in
      let bound : (r j : ℕ) → j < len → ((rows r j).a < 2 ^ size) × ((rows r j).b < 2 ^ size) =
        λ r j hj. elim (row_or_rest r n) [
          | inl hr ↦ rw (filled_row r j hr hj) ((trans j).within.a r, (trans j).within.b r)
          | inr le ↦ rw (filled-out n len 0 words (λ _ _. zero_share) r le) (zeros-lt size)
        ] in
      record {
        rows = rows;
        made =
            rw
              (
                length-tabulate k f,
                resize-tabulate k (len * size) f zero_share,
                length-tabulate (len * size) g,
                mul-div_cancel len pos,
                chunks-tabulate size len (len * size) g (omega (arith, mul_comm size len)),
              )
              (place_chunks-tabulate transpose n l len len 0 (λ j. tabulate size (word j)) words
                (λ _ _. zero_share) (λ j. (trans j).made) (omega arith));
        a = λ r j b hr hj hb. ap (λ s. bit_at s.a b) (filled_row r j hr hj) ∙ (trans j).a r b hr hb;
        b = λ r j b hr hj hb. ap (λ s. bit_at s.b b) (filled_row r j hr hj) ∙ (trans j).b r b hr hb;
        within = bound;
        rest = λ r le. filled-out n len 0 words (λ _ _. zero_share) r le;
      }
