-- ===== src/Shares/Transpose.antt =====
-- iris-mpc-cpu/src/shares/vecshare_bittranspose.rs: the bits of many shares, one word for each
-- position. An array of the source is a list, and `none` is its panic for an index out of range.
pub mod Rounds
pub mod Places
pub mod Bits
pub mod Join
pub mod Whole
pub mod Bounds
pub mod Correct
pub mod Within
pub mod Arrays
use iris_mpc.Prelude.{
  ℕ, zero, suc, ◌+◌, ◌-◌, ◌*◌, ◌/◌, ◌%◌, ◌^◌, true, false, ltb, ◌==◌, List, [], ◌∷◌, Option, none,
  some, map, get_elem?, bit_and, bit_or, bit_xor,
}
use iris_mpc.Execution.Session.{◌>>=◌}
use iris_mpc.Shares.RingElement
use iris_mpc.Shares.RingElement.{wrapping_shl}
use iris_mpc.Shares.Share
use iris_mpc.Shares.Share.{Share}

-- The list with `x` at the index `i`.
abbrev pub set : {A : Type 0} → List A → ℕ → A → Option (List A)
set [] i x = none
set (y ∷ ys) zero x = some (x ∷ ys)
set (y ∷ ys) (suc i) x = elim (set ys i x) [ none ↦ none | some zs ↦ some (y ∷ zs) ]

-- What `row` gives for the indices from `i` on, `n` of them.
abbrev pub each_row : (ℕ → Option Share) → ℕ → ℕ → Option (List Share)
each_row row i zero = some []
each_row row i (suc n) = do x ← row i; rest ← each_row row (i + 1) n; some (x ∷ rest)

module _ (w : ℕ) where
  -- The three assignments of the inner loop: bits of the rows `k` and `k + j` change places.
  unfoldable pub swap_rows : ℕ → ℕ → ℕ → List Share → Option (List Share)
  swap_rows j m k res = do
    x ← get_elem? res k
    y ← get_elem? res (k + j)
    let t = Share.and (Share.xor (Share.shr w x j) y) m
    res ← set res (k + j) (Share.xor y t)
    set res k (Share.xor x (Share.shl w t j))

  -- The inner loop, from `k` on, over `n` rows; `fuel` is more than the rows that are left.
  unfoldable pub swap_round : ℕ → ℕ → ℕ → ℕ → ℕ → List Share → Option (List Share)
  swap_round zero n j m k res = none
  swap_round (suc fuel) n j m k res = elim (ltb k n) [
    | false ↦ some res
    | true ↦ (do
      res ← swap_rows j m k res
      swap_round fuel n j m (bit_and (k + j + 1) (RingElement.not 64 j)) res)
  ]

  -- The outer loop; `fuel` is more than the rounds that are left.
  unfoldable pub swap_rounds : ℕ → ℕ → ℕ → ℕ → List Share → Option (List Share)
  swap_rounds zero n j m res = none
  swap_rounds (suc fuel) n j m res = elim (j == 0) [
    | true ↦ some res
    | false ↦ (do
      res ← swap_round (n + 1) n j m 0 res
      swap_rounds fuel n (j / 2) (bit_xor m (wrapping_shl w m (j / 2))) res)
  ]

-- The words `xs` of `k` bits above the lowest `s` bits of the word `acc`.
abbrev pub join : ℕ → ℕ → ℕ → List ℕ → ℕ
join k s acc [] = acc
join k s acc (x ∷ xs) = join k (s + k) (bit_or acc (x * 2 ^ s)) xs

-- One word of narrower ones, the first in the lowest bits.
abbrev pub joined : ℕ → List ℕ → ℕ
joined k [] = 0
joined k (x ∷ xs) = join k k x xs

unfoldable pub share_joined : ℕ → List Share → Share
share_joined k xs = record { a = joined k (map (λ s. s.a) xs); b = joined k (map (λ s. s.b) xs) }

unfoldable pub share64_from_share16s : Share → Share → Share → Share → Share
share64_from_share16s a b c d = share_joined 16 (a ∷ b ∷ c ∷ d ∷ [])

unfoldable pub share128_from_share16s :
    Share → Share → Share → Share → Share → Share → Share → Share → Share
share128_from_share16s a b c d e f g h = share_joined 16 (a ∷ b ∷ c ∷ d ∷ e ∷ f ∷ g ∷ h ∷ [])

unfoldable pub share64_from_share32s : Share → Share → Share
share64_from_share32s a b = share_joined 32 (a ∷ b ∷ [])

unfoldable pub share128_from_share32s : Share → Share → Share → Share → Share
share128_from_share32s a b c d = share_joined 32 (a ∷ b ∷ c ∷ d ∷ [])

unfoldable pub share128_from_share64s : Share → Share → Share
share128_from_share64s a b = share_joined 64 (a ∷ b ∷ [])

unfoldable pub share_transpose16x128 : List Share → Option (List Share)
share_transpose16x128 a = do
  res ←
      each_row
        (λ i. do
          x0 ← get_elem? a i
          x1 ← get_elem? a (i + 16)
          x2 ← get_elem? a (i + 32)
          x3 ← get_elem? a (i + 48)
          x4 ← get_elem? a (i + 64)
          x5 ← get_elem? a (i + 80)
          x6 ← get_elem? a (i + 96)
          x7 ← get_elem? a (i + 112)
          some (share128_from_share16s x0 x1 x2 x3 x4 x5 x6 x7))
        0 16
  swap_rounds 128 5 16 8 1324055902416102970674609367438786815 res

unfoldable pub share_transpose16x64 : List Share → Option (List Share)
share_transpose16x64 a = do
  res ←
      each_row
        (λ i. do
          x0 ← get_elem? a i
          x1 ← get_elem? a (16 + i)
          x2 ← get_elem? a (32 + i)
          x3 ← get_elem? a (48 + i)
          some (share64_from_share16s x0 x1 x2 x3))
        0 16
  swap_rounds 64 5 16 8 71777214294589695 res

unfoldable pub share_transpose32x128 : List Share → Option (List Share)
share_transpose32x128 a = do
  res ←
      each_row
        (λ i. do
          x0 ← get_elem? a i
          x1 ← get_elem? a (32 + i)
          x2 ← get_elem? a (64 + i)
          x3 ← get_elem? a (96 + i)
          some (share128_from_share32s x0 x1 x2 x3))
        0 32
  swap_rounds 128 6 32 16 5192217631581220737344928932233215 res

unfoldable pub share_transpose32x64 : List Share → Option (List Share)
share_transpose32x64 a = do
  res ←
      each_row
        (λ i. do x0 ← get_elem? a i; x1 ← get_elem? a (32 + i); some (share64_from_share32s x0 x1))
        0 32
  swap_rounds 64 6 32 16 281470681808895 res

unfoldable pub share_transpose64x128 : List Share → Option (List Share)
share_transpose64x128 a = do
  res ←
      each_row
        (λ i. do x0 ← get_elem? a i; x1 ← get_elem? a (i + 64); some (share128_from_share64s x0 x1))
        0 64
  swap_rounds 128 7 64 32 79228162495817593524129366015 res

-- In place.
unfoldable pub share_transpose64x64 : List Share → Option (List Share)
share_transpose64x64 a = swap_rounds 64 7 64 32 4294967295 a
