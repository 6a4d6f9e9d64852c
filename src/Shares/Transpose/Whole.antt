-- ===== src/Shares/Transpose/Whole.antt =====
-- All rounds of the transposition, bit by bit.
use iris_mpc.Prelude.{
  ℕ, zero, suc, ◌/◌, ◌<◌, ◌≡◌, ◌∙◌, refl, true, inl, inr, Bool-cases, ltb, arith,
}
use iris_mpc.Prelude.Bits.{bit_at}
use iris_mpc.Shares.Share.{Share}
use iris_mpc.Shares.Transpose.Rounds.{swapped, next_mask, all_swapped}
use iris_mpc.Shares.Transpose.Places.{
  Place, is_even, source, sources, all_below, all_below-lt, fits, masks_fit, and_true,
}
use iris_mpc.Shares.Transpose.Bits.{IsComponent, fits-even, swapped-bit}

ltb-true : (a b : ℕ) → ltb a b ≡ true → a < b
ltb-true a b h = ground arith

-- A source is in the same row width.
source-lt : (w m j r c : ℕ) → c < w → fits w m j c ≡ true → (source j (r, c)).1 < w
source-lt w m j r c h fit = elim (Bool-cases (is_even r j)) [
  | inl er ↦ elim (Bool-cases (is_even c j)) [
    | inl ec ↦ rw (source, er, ec) h
    | inr ec ↦ rw (source, er, ec) (omega arith)
  ]
  | inr er ↦ elim (Bool-cases (is_even c j)) [
    | inl ec ↦ rw (source, er, ec) (fits-even w m j c fit ec).1
    | inr ec ↦ rw (source, er, ec) h
  ]
]

masks_fit-parts :
    (fuel w j m : ℕ)
    → masks_fit (suc fuel) w j m ≡ true
    → (j < w)
      × (all_below w (fits w m j) ≡ true)
      × (masks_fit fuel w (j / 2) (next_mask w j m) ≡ true)
masks_fit-parts fuel w j m h =
    let (a, rest) = and_true (ltb j w) _ h in
    let (b, c) = and_true (all_below w (fits w m j)) _ rest in (ltb-true j w a, b, c)

sources-lt :
    (fuel w j m : ℕ) (p : Place) → p.1 < w → masks_fit fuel w j m ≡ true → (sources fuel j p).1 < w
sources-lt zero w j m p h fit = h
sources-lt (suc fuel) w j m p h fit =
    let (_, here, rest) = masks_fit-parts fuel w j m fit in
    let q = sources fuel (j / 2) p in
    let below = sources-lt fuel w (j / 2) (next_mask w j m) p h rest in
    source-lt w m j q.0 q.1 below (all_below-lt w (fits w m j) here q.1 below)

-- All rounds take every bit from its source.
pub all_swapped-bit :
    {p : Share → ℕ} (is : IsComponent p) (fuel w j m : ℕ) (f : ℕ → Share) (r c : ℕ)
    → c < w
    → masks_fit fuel w j m ≡ true
    → let q = sources fuel j (r, c) in
      bit_at (p (all_swapped fuel w j m f r)) c ≡ bit_at (p (f q.0)) q.1
all_swapped-bit is zero w j m f r c h fit = refl
all_swapped-bit {p} is (suc fuel) w j m f r c h fit =
    let (in_width, here, rest) = masks_fit-parts fuel w j m fit in
    let q = sources fuel (j / 2) (r, c) in
    let below = sources-lt fuel w (j / 2) (next_mask w j m) (r, c) h rest in
    all_swapped-bit is fuel w (j / 2) (next_mask w j m) (swapped w m j f) r c h rest
    ∙ swapped-bit is w m j in_width f q.0 q.1 below (all_below-lt w (fits w m j) here q.1 below)
