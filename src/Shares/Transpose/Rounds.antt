-- ===== src/Shares/Transpose/Rounds.antt =====
-- What one round of the transposition does to every row, and what all rounds do.
use iris_mpc.Prelude.{
  ℕ, zero, suc, ◌+◌, ◌-◌, ◌/◌, ◌%◌, ◌≡◌, ◌∙◌, refl, true, false, ◌==◌, List, some, tabulate,
  bit_xor,
}
use iris_mpc.Shares.RingElement
use iris_mpc.Shares.RingElement.{wrapping_shl}
use iris_mpc.Shares.Share
use iris_mpc.Shares.Share.{Share}
use iris_mpc.Shares.Transpose.{swap_rows, swap_round, swap_rounds}

module _ (w m j : ℕ) where
  abbrev pub exchanged : Share → Share → Share
  exchanged x y = Share.and (Share.xor (Share.shr w x j) y) m

  -- The row `r` after a round.
  abbrev pub swapped : (ℕ → Share) → ℕ → Share
  swapped f r = elim (((r / j) % 2) == 0) [
    | true ↦ Share.xor (f r) (Share.shl w (exchanged (f r) (f (r + j))) j)
    | false ↦ Share.xor (f r) (exchanged (f (r - j)) (f r))
  ]

-- The mask of the next round.
abbrev pub next_mask : ℕ → ℕ → ℕ → ℕ
next_mask w j m = bit_xor m (wrapping_shl w m (j / 2))

-- The rows after all rounds.
abbrev pub all_swapped : ℕ → ℕ → ℕ → ℕ → (ℕ → Share) → ℕ → Share
all_swapped zero w j m f = f
all_swapped (suc fuel) w j m f = all_swapped fuel w (j / 2) (next_mask w j m) (swapped w m j f)

swap_rounds-step :
    (w fuel n j m : ℕ) (xs ys : List Share)
    → (j == 0) ≡ false
    → swap_round w (n + 1) n j m 0 xs ≡ some ys
    → swap_rounds w (suc fuel) n j m xs ≡ swap_rounds w fuel n (j / 2) (next_mask w j m) ys
unfolding swap_rounds
swap_rounds-step w fuel n j m xs ys e h = rw (swap_rounds, e, h) refl

module _ (w m : ℕ) (f : ℕ → Share) where
  round16_8 : swap_round w 17 16 8 m 0 (tabulate 16 f) ≡ some (tabulate 16 (swapped w m 8 f))
  unfolding swap_round swap_rows tabulate RingElement.not
  round16_8 = refl

  round16_4 : swap_round w 17 16 4 m 0 (tabulate 16 f) ≡ some (tabulate 16 (swapped w m 4 f))
  unfolding swap_round swap_rows tabulate RingElement.not
  round16_4 = refl

  round16_2 : swap_round w 17 16 2 m 0 (tabulate 16 f) ≡ some (tabulate 16 (swapped w m 2 f))
  unfolding swap_round swap_rows tabulate RingElement.not
  round16_2 = refl

  round16_1 : swap_round w 17 16 1 m 0 (tabulate 16 f) ≡ some (tabulate 16 (swapped w m 1 f))
  unfolding swap_round swap_rows tabulate RingElement.not
  round16_1 = refl

  round32_16 : swap_round w 33 32 16 m 0 (tabulate 32 f) ≡ some (tabulate 32 (swapped w m 16 f))
  unfolding swap_round swap_rows tabulate RingElement.not
  round32_16 = refl

  round32_8 : swap_round w 33 32 8 m 0 (tabulate 32 f) ≡ some (tabulate 32 (swapped w m 8 f))
  unfolding swap_round swap_rows tabulate RingElement.not
  round32_8 = refl

  round32_4 : swap_round w 33 32 4 m 0 (tabulate 32 f) ≡ some (tabulate 32 (swapped w m 4 f))
  unfolding swap_round swap_rows tabulate RingElement.not
  round32_4 = refl

  round32_2 : swap_round w 33 32 2 m 0 (tabulate 32 f) ≡ some (tabulate 32 (swapped w m 2 f))
  unfolding swap_round swap_rows tabulate RingElement.not
  round32_2 = refl

  round32_1 : swap_round w 33 32 1 m 0 (tabulate 32 f) ≡ some (tabulate 32 (swapped w m 1 f))
  unfolding swap_round swap_rows tabulate RingElement.not
  round32_1 = refl

  round64_32 : swap_round w 65 64 32 m 0 (tabulate 64 f) ≡ some (tabulate 64 (swapped w m 32 f))
  unfolding swap_round swap_rows tabulate RingElement.not
  round64_32 = refl

  round64_16 : swap_round w 65 64 16 m 0 (tabulate 64 f) ≡ some (tabulate 64 (swapped w m 16 f))
  unfolding swap_round swap_rows tabulate RingElement.not
  round64_16 = refl

  round64_8 : swap_round w 65 64 8 m 0 (tabulate 64 f) ≡ some (tabulate 64 (swapped w m 8 f))
  unfolding swap_round swap_rows tabulate RingElement.not
  round64_8 = refl

  round64_4 : swap_round w 65 64 4 m 0 (tabulate 64 f) ≡ some (tabulate 64 (swapped w m 4 f))
  unfolding swap_round swap_rows tabulate RingElement.not
  round64_4 = refl

  round64_2 : swap_round w 65 64 2 m 0 (tabulate 64 f) ≡ some (tabulate 64 (swapped w m 2 f))
  unfolding swap_round swap_rows tabulate RingElement.not
  round64_2 = refl

  round64_1 : swap_round w 65 64 1 m 0 (tabulate 64 f) ≡ some (tabulate 64 (swapped w m 1 f))
  unfolding swap_round swap_rows tabulate RingElement.not
  round64_1 = refl

module _ (w m : ℕ) (f : ℕ → Share) where
  pub rounds16 : swap_rounds w 5 16 8 m (tabulate 16 f) ≡ some (tabulate 16 (all_swapped 4 w 8 m f))
  unfolding swap_rounds
  rounds16 =
      let m1 = next_mask w 8 m in
      let f1 = swapped w m 8 f in
      let m2 = next_mask w 4 m1 in
      let f2 = swapped w m1 4 f1 in
      let m3 = next_mask w 2 m2 in
      let f3 = swapped w m2 2 f2 in
      let m4 = next_mask w 1 m3 in
      let f4 = swapped w m3 1 f3 in
      swap_rounds-step w 4 16 8 m (tabulate 16 f) (tabulate 16 (swapped w m 8 f)) refl
        (round16_8 w m f)
      ∙ swap_rounds-step w 3 16 4 m1 (tabulate 16 f1) (tabulate 16 (swapped w m1 4 f1)) refl
          (round16_4 w m1 f1)
      ∙ swap_rounds-step w 2 16 2 m2 (tabulate 16 f2) (tabulate 16 (swapped w m2 2 f2)) refl
          (round16_2 w m2 f2)
      ∙ swap_rounds-step w 1 16 1 m3 (tabulate 16 f3) (tabulate 16 (swapped w m3 1 f3)) refl
          (round16_1 w m3 f3)

  pub rounds32 :
      swap_rounds w 6 32 16 m (tabulate 32 f) ≡ some (tabulate 32 (all_swapped 5 w 16 m f))
  unfolding swap_rounds
  rounds32 =
      let m1 = next_mask w 16 m in
      let f1 = swapped w m 16 f in
      let m2 = next_mask w 8 m1 in
      let f2 = swapped w m1 8 f1 in
      let m3 = next_mask w 4 m2 in
      let f3 = swapped w m2 4 f2 in
      let m4 = next_mask w 2 m3 in
      let f4 = swapped w m3 2 f3 in
      let m5 = next_mask w 1 m4 in
      let f5 = swapped w m4 1 f4 in
      swap_rounds-step w 5 32 16 m (tabulate 32 f) (tabulate 32 (swapped w m 16 f)) refl
        (round32_16 w m f)
      ∙ swap_rounds-step w 4 32 8 m1 (tabulate 32 f1) (tabulate 32 (swapped w m1 8 f1)) refl
          (round32_8 w m1 f1)
      ∙ swap_rounds-step w 3 32 4 m2 (tabulate 32 f2) (tabulate 32 (swapped w m2 4 f2)) refl
          (round32_4 w m2 f2)
      ∙ swap_rounds-step w 2 32 2 m3 (tabulate 32 f3) (tabulate 32 (swapped w m3 2 f3)) refl
          (round32_2 w m3 f3)
      ∙ swap_rounds-step w 1 32 1 m4 (tabulate 32 f4) (tabulate 32 (swapped w m4 1 f4)) refl
          (round32_1 w m4 f4)

  pub rounds64 :
      swap_rounds w 7 64 32 m (tabulate 64 f) ≡ some (tabulate 64 (all_swapped 6 w 32 m f))
  unfolding swap_rounds
  rounds64 =
      let m1 = next_mask w 32 m in
      let f1 = swapped w m 32 f in
      let m2 = next_mask w 16 m1 in
      let f2 = swapped w m1 16 f1 in
      let m3 = next_mask w 8 m2 in
      let f3 = swapped w m2 8 f2 in
      let m4 = next_mask w 4 m3 in
      let f4 = swapped w m3 4 f3 in
      let m5 = next_mask w 2 m4 in
      let f5 = swapped w m4 2 f4 in
      let m6 = next_mask w 1 m5 in
      let f6 = swapped w m5 1 f5 in
      swap_rounds-step w 6 64 32 m (tabulate 64 f) (tabulate 64 (swapped w m 32 f)) refl
        (round64_32 w m f)
      ∙ swap_rounds-step w 5 64 16 m1 (tabulate 64 f1) (tabulate 64 (swapped w m1 16 f1)) refl
          (round64_16 w m1 f1)
      ∙ swap_rounds-step w 4 64 8 m2 (tabulate 64 f2) (tabulate 64 (swapped w m2 8 f2)) refl
          (round64_8 w m2 f2)
      ∙ swap_rounds-step w 3 64 4 m3 (tabulate 64 f3) (tabulate 64 (swapped w m3 4 f3)) refl
          (round64_4 w m3 f3)
      ∙ swap_rounds-step w 2 64 2 m4 (tabulate 64 f4) (tabulate 64 (swapped w m4 2 f4)) refl
          (round64_2 w m4 f4)
      ∙ swap_rounds-step w 1 64 1 m5 (tabulate 64 f5) (tabulate 64 (swapped w m5 1 f5)) refl
          (round64_1 w m5 f5)
