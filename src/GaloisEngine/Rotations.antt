-- ===== src/GaloisEngine/Rotations.antt =====
-- The rotations of a code's coefficients, row by row.
use iris_mpc.Prelude.{
  ℕ, zero, suc, ◌+◌, ◌-◌, ◌*◌, ◌/◌, ◌%◌, ◌<◌, ◌≤◌, ◌≡◌, ◌∙◌, refl, sym, ap, ap₂, List, [], ◌∷◌,
  ◌++◌, append_assoc, map, length, take, drop, length-append, take-append, drop-append, tabulate,
  tabulate-agree, arith,
}
use mathlib.Core.List.{append-nil}
use iris_mpc.GaloisEngine.{
  rotate_left, rotate_right, on_chunks, rotate_coefs_left, rotate_coefs_right, rotations,
  all_rotations,
}

split :
    (n : ℕ) (xs : List ℕ)
    → n ≤ length xs
    → (u : List ℕ) × (v : List ℕ) × (xs ≡ u ++ v) × (length u ≡ n)
split zero xs h = ([], xs, refl, refl)
split (suc n) [] h = absurd (omega arith)
split (suc n) (x ∷ xs) h =
    let (u, v, e, l) = split n xs (omega arith) in (x ∷ u, v, ap (◌∷◌ x) e, ap suc l)

take_at : {n : ℕ} (u v : List ℕ) → length u ≡ n → take n (u ++ v) ≡ u
take_at u v e = ap (λ k. take k (u ++ v)) (sym e) ∙ take-append u v

drop_at : {n : ℕ} (u v : List ℕ) → length u ≡ n → drop n (u ++ v) ≡ v
drop_at u v e = ap (λ k. drop k (u ++ v)) (sym e) ∙ drop-append u v

rotate_left_at : {n : ℕ} (u v : List ℕ) → length u ≡ n → rotate_left n (u ++ v) ≡ v ++ u
rotate_left_at u v e = ap₂ ◌++◌ (drop_at u v e) (take_at u v e)

rotate_right_at : {n : ℕ} (u v : List ℕ) → length v ≡ n → rotate_right n (u ++ v) ≡ v ++ u
rotate_right_at u v e = rotate_left_at u v (omega (arith, length-append u v))

length-rotate_left : (n : ℕ) (xs : List ℕ) → n ≤ length xs → length (rotate_left n xs) ≡ length xs
length-rotate_left n xs h =
    let (u, v, e, l) = split n xs h in
    rw (e, rotate_left_at u v l) (omega (arith, length-append u v, length-append v u))

-- A turn to the right after a turn to the left that is at least as long.
turn_back :
    (p k : ℕ) (xs : List ℕ)
    → p + k ≤ length xs
    → rotate_right k (rotate_left (p + k) xs) ≡ rotate_left p xs
turn_back p k xs h =
    let (w, c, e, l) = split (p + k) xs h in
    let (a, b, e', l') = split p w (omega arith) in
    let lb : length b ≡ k = omega (arith, length-append a b, ap length e') in
    rw (e) (
      ap (rotate_right k) (rotate_left_at w c l)
      ∙ rw (e') (
          ap (rotate_right k) (sym (append_assoc c a b))
          ∙ rotate_right_at (c ++ a) b lb
          ∙ sym (append_assoc b c a)
          ∙ sym (rotate_left_at a (b ++ c) l')
          ∙ ap (rotate_left p) (sym (append_assoc a b c))))

turn_around :
    (k : ℕ) (xs : List ℕ)
    → k ≤ length xs
    → rotate_right k (rotate_left 0 xs) ≡ rotate_left (length xs - k) xs
turn_around k xs h =
    let (u, v, e, l) = split (length xs - k) xs (omega arith) in
    let lv : length v ≡ k = omega (arith, length-append u v, ap length e) in
    ap (rotate_right k) (append-nil xs ∙ e)
    ∙ rotate_right_at u v lv
    ∙ sym (rotate_left_at u v l)
    ∙ ap (rotate_left (length xs - k)) (sym e)

-- A row of 800 numbers that is turned to the left by `j` columns, and one more turn to the right.
next_turn :
    (j : ℕ) (xs : List ℕ)
    → length xs ≡ 800
    → j < 200
    → rotate_right 4 (rotate_left (4 * j) xs) ≡ rotate_left (4 * ((j + 199) % 200)) xs
next_turn zero xs e h =
    turn_around 4 xs (omega arith)
    ∙ ap (λ n. rotate_left n xs) {x = length xs - 4} {y = 4 * ((0 + 199) % 200)} (omega arith)
next_turn (suc j) xs e h =
    ap (λ n. rotate_right 4 (rotate_left n xs)) {x = 4 * suc j} {y = 4 * j + 4} (omega arith)
    ∙ turn_back (4 * j) 4 xs (omega arith)
    ∙ ap (λ n. rotate_left n xs) {x = 4 * j} {y = 4 * ((suc j + 199) % 200)} (omega arith)

-- Rows of 800 numbers, and the numbers of all rows.
pub data AreRows : List (List ℕ) → Type 0 where
  no_rows : AreRows []
  row : {r : List ℕ} {rs : List (List ℕ)} → length r ≡ 800 → AreRows rs → AreRows (r ∷ rs)

unfoldable pub joined : List (List ℕ) → List ℕ
joined [] = []
joined (r ∷ rs) = r ++ joined rs

length-joined : {rs : List (List ℕ)} → AreRows rs → length (joined rs) ≡ 800 * length rs
unfolding joined
length-joined no_rows = refl
length-joined (row {r} {rs} e h) = omega (arith, length-append r (joined rs), length-joined h)

map-agree :
    {rs : List (List ℕ)} (f g : List ℕ → List ℕ)
    → AreRows rs
    → ((r : List ℕ) → length r ≡ 800 → f r ≡ g r)
    → map f rs ≡ map g rs
map-agree f g no_rows same = refl
map-agree f g (row {r} e h) same = ap₂ ◌∷◌ (same r e) (map-agree f g h same)

map-AreRows :
    {rs : List (List ℕ)} (f : List ℕ → List ℕ)
    → ((r : List ℕ) → length r ≡ 800 → length (f r) ≡ 800)
    → AreRows rs
    → AreRows (map f rs)
map-AreRows f keeps no_rows = no_rows
map-AreRows f keeps (row {r} e h) = row (keeps r e) (map-AreRows f keeps h)

on_chunks-joined :
    {rs : List (List ℕ)} (f : List ℕ → List ℕ)
    → AreRows rs
    → on_chunks f 800 (length rs) (joined rs) ≡ joined (map f rs)
unfolding joined
on_chunks-joined f no_rows = refl
on_chunks-joined f (row {r} {rs} e h) =
    ap₂ ◌++◌ (ap f (take_at r (joined rs) e))
      (ap (on_chunks f 800 (length rs)) (drop_at r (joined rs) e) ∙ on_chunks-joined f h)

on_rows :
    {rs : List (List ℕ)} (f : List ℕ → List ℕ)
    → AreRows rs
    → on_chunks f 800 (length (joined rs) / 800) (joined rs) ≡ joined (map f rs)
on_rows {rs} f h =
    ap (λ n. on_chunks f 800 n (joined rs)) {x = length (joined rs) / 800} {y = length rs}
      (omega (arith, length-joined h))
    ∙ on_chunks-joined f h

-- All rows turned to the left by `j` columns.
abbrev pub turned : ℕ → List (List ℕ) → List ℕ
turned j rs = joined (map (rotate_left (4 * j)) rs)

map-map : (f g : List ℕ → List ℕ) (rs : List (List ℕ)) → map f (map g rs) ≡ map (λ r. f (g r)) rs
map-map f g [] = refl
map-map f g (r ∷ rs) = ap (◌∷◌ (f (g r))) (map-map f g rs)

turned_once :
    {rs : List (List ℕ)} (j : ℕ)
    → AreRows rs
    → j < 200
    → rotate_coefs_right (turned j rs) 1 ≡ turned ((j + 199) % 200) rs
unfolding rotate_coefs_right
turned_once {rs} j h lt =
    on_rows (rotate_right 4)
      (map-AreRows (rotate_left (4 * j)) (λ r e. length-rotate_left (4 * j) r (omega arith) ∙ e) h)
    ∙ ap joined (
        map-map (rotate_right 4) (rotate_left (4 * j)) rs
        ∙ map-agree (λ r. rotate_right 4 (rotate_left (4 * j) r))
            (rotate_left (4 * ((j + 199) % 200))) h (λ r e. next_turn j r e lt))

rotations-turned :
    {rs : List (List ℕ)} (n j : ℕ)
    → AreRows rs
    → j < 200
    → rotations n (turned j rs) ≡ tabulate n (λ t. turned ((j + 199 * (t + 1)) % 200) rs)
unfolding tabulate
rotations-turned zero j h lt = refl
rotations-turned {rs} (suc n) j h lt =
    let f : ℕ → ℕ → List ℕ = λ j t. turned ((j + 199 * (t + 1)) % 200) rs in
    ap (λ xs. xs ∷ rotations n xs) (turned_once j h lt)
    ∙ ap₂ ◌∷◌
        (ap (λ k. turned k rs) {x = (j + 199) % 200} {y = (j + 199 * (0 + 1)) % 200} (omega arith))
        (rotations-turned n ((j + 199) % 200) h (omega arith)
          ∙ tabulate-agree n (f ((j + 199) % 200)) (λ t. f j (suc t))
              (λ t _.
                ap (λ k. turned k rs) {x = ((j + 199) % 200 + 199 * (t + 1)) % 200}
                  {y = (j + 199 * (suc t + 1)) % 200} (omega arith)))

-- For coefficients in rows of 800 numbers, 200 columns of four, `all_rotations` gives 31 vectors: in
-- the one at the position `t` every row is turned to the left by `215 - t` columns, modulo 200, so
-- that the one in the middle has the coefficients as they were.
pub all_rotations-turned :
    (rs : List (List ℕ))
    → AreRows rs
    → (all_rotations (joined rs) ≡ tabulate 31 (λ t. turned ((215 - t) % 200) rs))
      × (turned ((215 - 15) % 200) rs ≡ joined rs)
unfolding all_rotations rotate_coefs_left
all_rotations-turned rs h = (
  ap (rotations 31) (on_rows (rotate_left 64) h)
      ∙ rotations-turned 31 16 h (omega arith)
      ∙ tabulate-agree 31 (λ t. turned ((16 + 199 * (t + 1)) % 200) rs)
          (λ t. turned ((215 - t) % 200) rs)
          (λ t small.
            ap (λ k. turned k rs) {x = (16 + 199 * (t + 1)) % 200} {y = (215 - t) % 200}
              (omega arith)),
  ap joined (map-agree (rotate_left 0) (λ r. r) h (λ r _. append-nil r) ∙ unchanged rs),
)
  where
    unchanged : (rs : List (List ℕ)) → map (λ r. r) rs ≡ rs
    unchanged [] = refl
    unchanged (r ∷ rs) = ap (◌∷◌ r) (unchanged rs)
