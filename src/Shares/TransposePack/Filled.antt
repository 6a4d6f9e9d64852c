-- ===== src/Shares/TransposePack/Filled.antt =====
-- The rows that the loop over the chunks fills.
use iris_mpc.Prelude.{
  ℕ, zero, suc, ◌+◌, ◌≤◌, ◌<◌, ◌⊎◌, inl, inr, ◌≡◌, ◌∙◌, refl, ap, List, some, Option, tabulate,
  arith,
}
use iris_mpc.Shares.Share.{Share}
use iris_mpc.Shares.TransposePack.{place, place_chunks}
use iris_mpc.Shares.TransposePack.Tables.{put, set-tabulate, put-here, put-other}

-- The rows `h` when the words `g` have gone to the position `j` of the first `n` rows.
abbrev pub placed : ℕ → (ℕ → Share) → ℕ → (ℕ → ℕ → Share) → ℕ → ℕ → Share
placed zero g j h r = h r
placed (suc n) g j h zero = put (h 0) j (g 0)
placed (suc n) g j h (suc r) = placed n (λ r. g (suc r)) j (λ r. h (suc r)) r

place-tabulate :
    (n l len j : ℕ) (g : ℕ → Share) (h : ℕ → ℕ → Share)
    → j < len
    → place j (tabulate n g) (tabulate l (λ r. tabulate len (h r)))
      ≡ some (tabulate l (λ r. tabulate len (placed n g j h r)))
unfolding tabulate
place-tabulate zero l len j g h lt = refl
place-tabulate (suc n) zero len j g h lt = refl
place-tabulate (suc n) (suc l) len j g h lt =
    rw
      (
        set-tabulate len j (h 0) (g 0) lt,
        place-tabulate n l len j (λ r. g (suc r)) (λ r. h (suc r)) lt,
      )
      refl

placed-in :
    (n : ℕ) (g : ℕ → Share) (j : ℕ) (h : ℕ → ℕ → Share) (r : ℕ)
    → r < n
    → placed n g j h r ≡ put (h r) j (g r)
placed-in zero g j h r lt = absurd (omega arith)
placed-in (suc n) g j h zero lt = refl
placed-in (suc n) g j h (suc r) lt = placed-in n (λ r. g (suc r)) j (λ r. h (suc r)) r (omega arith)

placed-out :
    (n : ℕ) (g : ℕ → Share) (j : ℕ) (h : ℕ → ℕ → Share) (r : ℕ) → n ≤ r → placed n g j h r ≡ h r
placed-out zero g j h r le = refl
placed-out (suc n) g j h zero le = absurd (omega arith)
placed-out (suc n) g j h (suc r) le =
    placed-out n (λ r. g (suc r)) j (λ r. h (suc r)) r (omega arith)

pub row_or_rest : (r n : ℕ) → (r < n) ⊎ (n ≤ r)
row_or_rest r n = omega arith

placed-other :
    (n : ℕ) (g : ℕ → Share) (j : ℕ) (h : ℕ → ℕ → Share) (r i : ℕ)
    → i < j
    → placed n g j h r i ≡ h r i
placed-other n g j h r i lt = elim (row_or_rest r n) [
  | inl a ↦ ap (λ row. row i) (placed-in n g j h r a) ∙ put-other (h r) j (g r) i (inl lt)
  | inr b ↦ ap (λ row. row i) (placed-out n g j h r b)
]

-- The rows after `count` chunks, from the number `j` on, whose transposed words are `g`.
abbrev pub filled : ℕ → ℕ → ℕ → (ℕ → ℕ → Share) → (ℕ → ℕ → Share) → ℕ → ℕ → Share
filled n zero j g h = h
filled n (suc count) j g h = filled n count (j + 1) (λ i. g (suc i)) (placed n (g 0) j h)

pub place_chunks-tabulate :
    (transpose : List Share → Option (List Share)) (n l len count j : ℕ) (xs : ℕ → List Share)
    (g h : ℕ → ℕ → Share)
    → ((i : ℕ) → transpose (xs i) ≡ some (tabulate n (g i)))
    → j + count ≤ len
    → place_chunks transpose j (tabulate count xs) (tabulate l (λ r. tabulate len (h r)))
      ≡ some (tabulate l (λ r. tabulate len (filled n count j g h r)))
unfolding tabulate
place_chunks-tabulate transpose n l len zero j xs g h each fits = refl
place_chunks-tabulate transpose n l len (suc count) j xs g h each fits =
    rw (each 0, place-tabulate n l len j (g 0) h (omega arith))
      (place_chunks-tabulate transpose n l len count (j + 1) (λ i. xs (suc i)) (λ i. g (suc i))
        (placed n (g 0) j h) (λ i. each (suc i)) (omega arith))

filled-before :
    (n count j : ℕ) (g h : ℕ → ℕ → Share) (r i : ℕ) → i < j → filled n count j g h r i ≡ h r i
filled-before n zero j g h r i lt = refl
filled-before n (suc count) j g h r i lt =
    filled-before n count (j + 1) (λ i. g (suc i)) (placed n (g 0) j h) r i (omega arith)
    ∙ placed-other n (g 0) j h r i lt

filled-in :
    (n count j : ℕ) (g h : ℕ → ℕ → Share) (r i : ℕ)
    → r < n
    → i < count
    → filled n count j g h r (j + i) ≡ g i r
filled-in n zero j g h r i hr hi = absurd (omega arith)
filled-in n (suc count) j g h r zero hr hi =
    ap (filled n (suc count) j g h r) {x = j + 0} {y = j} (omega arith)
    ∙ filled-before n count (j + 1) (λ i. g (suc i)) (placed n (g 0) j h) r j (omega arith)
    ∙ ap (λ row. row j) (placed-in n (g 0) j h r hr)
    ∙ put-here (h r) j (g 0 r)
filled-in n (suc count) j g h r (suc i) hr hi =
    ap (filled n (suc count) j g h r) {x = j + suc i} {y = j + 1 + i} (omega arith)
    ∙ filled-in n count (j + 1) (λ i. g (suc i)) (placed n (g 0) j h) r i hr (omega arith)

pub filled-start :
    (n count : ℕ) (g h : ℕ → ℕ → Share) (r i : ℕ)
    → r < n
    → i < count
    → filled n count 0 g h r i ≡ g i r
filled-start n count g h r i hr hi =
    ap (filled n count 0 g h r) {x = i} {y = 0 + i} (omega arith)
    ∙ filled-in n count 0 g h r i hr hi

pub filled-out :
    (n count j : ℕ) (g h : ℕ → ℕ → Share) (r : ℕ) → n ≤ r → filled n count j g h r ≡ h r
filled-out n zero j g h r le = refl
filled-out n (suc count) j g h r le =
    filled-out n count (j + 1) (λ i. g (suc i)) (placed n (g 0) j h) r le
    ∙ placed-out n (g 0) j h r le
