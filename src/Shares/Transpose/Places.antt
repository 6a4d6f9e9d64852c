-- ===== src/Shares/Transpose/Places.antt =====
-- Where the transposition takes every bit from, and the masks of its rounds.
use iris_mpc.Prelude.{
  ℕ, zero, suc, ◌+◌, ◌-◌, ◌*◌, ◌/◌, ◌%◌, ◌<◌, ◌≡◌, ◌⊎◌, inl, inr, Bool, true, false, ◌&&◌, ◌||◌,
  not, ◌==◌, ltb, leb, bit_xor, arith,
}
use iris_mpc.Prelude.Bits.{bit_at}
use iris_mpc.Shares.RingElement.{wrapping_shl}

-- A row and a place in it.
abbrev pub Place : Type 0
Place = ℕ × ℕ

abbrev pub is_even : ℕ → ℕ → Bool
is_even r j = ((r / j) % 2) == 0

-- In the round of the distance `j`, the place that the bit at the place `p` comes from.
abbrev pub source : ℕ → Place → Place
source j (r, c) = elim (is_even r j) [
  | true ↦ elim (is_even c j) [ true ↦ (r, c) | false ↦ (r + j, c - j) ]
  | false ↦ elim (is_even c j) [ true ↦ (r - j, c + j) | false ↦ (r, c) ]
]

-- The same over all rounds from the distance `j` on.
abbrev pub sources : ℕ → ℕ → Place → Place
sources zero j p = p
sources (suc fuel) j p = source j (sources fuel (j / 2) p)

-- A test on all numbers below `n`.
abbrev pub all_below : ℕ → (ℕ → Bool) → Bool
all_below zero t = true
all_below (suc n) t = t n && all_below n t

pub and_true : (a b : Bool) → (a && b) ≡ true → (a ≡ true) × (b ≡ true)
and_true a b h = ground arith

last_or_below : (i n : ℕ) → i < suc n → (i < n) ⊎ (n ≡ i)
last_or_below i n h = omega arith

pub all_below-lt : (n : ℕ) (t : ℕ → Bool) → all_below n t ≡ true → (i : ℕ) → i < n → t i ≡ true
all_below-lt zero t h i lt = absurd (omega arith)
all_below-lt (suc n) t h i lt =
    let (last, below) = and_true (t n) (all_below n t) h in
    elim (last_or_below i n lt) [ inl p ↦ all_below-lt n t below i p | inr e ↦ rw (e) at last ]

-- At every place of the width, the mask has a bit exactly if the place is in an even group of `j`
-- places, and the group beside it is within the width and has the opposite bit.
abbrev pub fits : ℕ → ℕ → ℕ → ℕ → Bool
fits w m j c = elim (is_even c j) [
  | true ↦ bit_at m c && (ltb (c + j) w && (ltb c j || not (bit_at m (c - j))))
  | false ↦ not (bit_at m c) && (leb j c && bit_at m (c - j))
]

abbrev pub masks_fit : ℕ → ℕ → ℕ → ℕ → Bool
masks_fit zero w j m = true
masks_fit (suc fuel) w j m =
    ltb j w
    && (all_below w (fits w m j) && masks_fit fuel w (j / 2) (bit_xor m (wrapping_shl w m (j / 2))))

-- Every place of the result comes from the one that the columns of the packed rows give.
abbrev pub transposed : ℕ → ℕ → ℕ → ℕ → Bool
transposed fuel n r c =
    let p = sources fuel (n / 2) (r, c) in (p.0 == c % n) && (p.1 == r + n * (c / n))
