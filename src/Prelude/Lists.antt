-- ===== src/Prelude/Lists.antt =====
-- Lengths, positions and pairings of lists, over the native numbers.
use Prim.Native.Nat.{ℕ, zero, suc, ◌+◌, ◌≤◌, ◌<◌}
use mathlib.Core.Path.{◌≡◌, refl, ap, ap₂, ◌∙◌}
use mathlib.Core.List.{List, [], ◌∷◌, ◌++◌, map}
use mathlib.Core.Option.{Option, none, some}
use native.Mathlib.Omega.{arith}

module _ {ℓ} {A : Type ℓ} where
  abbrev pub length : List A → ℕ
  length [] = 0
  length (x ∷ xs) = suc (length xs)

  abbrev pub get_elem? : List A → ℕ → Option A
  get_elem? [] i = none
  get_elem? (x ∷ xs) zero = some x
  get_elem? (x ∷ xs) (suc i) = get_elem? xs i

  abbrev pub take : ℕ → List A → List A
  take zero xs = []
  take (suc n) [] = []
  take (suc n) (x ∷ xs) = x ∷ take n xs

  abbrev pub drop : ℕ → List A → List A
  drop zero xs = xs
  drop (suc n) [] = []
  drop (suc n) (x ∷ xs) = drop n xs

  pub length-append : (xs ys : List A) → length (xs ++ ys) ≡ length xs + length ys
  length-append [] ys = omega arith
  length-append (x ∷ xs) ys = omega (arith, length-append xs ys)

pub length-map {ℓ κ} :
    {A : Type ℓ} {B : Type κ} (f : A → B) (xs : List A) → length (map f xs) ≡ length xs
length-map f [] = refl
length-map f (x ∷ xs) = ap suc (length-map f xs)

pub map-append {ℓ κ} :
    {A : Type ℓ} {B : Type κ} (f : A → B) (xs ys : List A) → map f (xs ++ ys) ≡ map f xs ++ map f ys
map-append f [] ys = refl
map-append f (x ∷ xs) ys = ap (◌∷◌ (f x)) (map-append f xs ys)

-- Two lists in step, as long as the shorter one.
abbrev pub zip_with {ℓ κ μ} :
    {A : Type ℓ} {B : Type κ} {C : Type μ} → (A → B → C) → List A → List B → List C
zip_with f [] ys = []
zip_with f (x ∷ xs) [] = []
zip_with f (x ∷ xs) (y ∷ ys) = f x y ∷ zip_with f xs ys

-- Two lists whose elements are related in order.
pub data AllPairs {ℓ κ μ} {A : Type ℓ} {B : Type κ} (P : A → B → Type μ)
    : List A → List B → Type (ℓ ⊔ κ ⊔ μ) where
  nil : AllPairs P [] []
  cons :
      {a : A} {b : B} {xs : List A} {ys : List B}
      → P a b
      → AllPairs P xs ys
      → AllPairs P (a ∷ xs) (b ∷ ys)

-- The values of a function below `n`.
unfoldable pub tabulate {ℓ} : {A : Type ℓ} → ℕ → (ℕ → A) → List A
tabulate zero f = []
tabulate (suc n) f = f 0 ∷ tabulate n (λ i. f (suc i))

pub length-tabulate {ℓ} : {A : Type ℓ} (n : ℕ) (f : ℕ → A) → length (tabulate n f) ≡ n
unfolding tabulate
length-tabulate zero f = refl
length-tabulate (suc n) f = ap suc (length-tabulate n (λ i. f (suc i)))

pub zip_with-tabulate {ℓ κ μ} :
    {A : Type ℓ} {B : Type κ} {C : Type μ} (op : A → B → C) (n : ℕ) (f : ℕ → A) (g : ℕ → B)
    → zip_with op (tabulate n f) (tabulate n g) ≡ tabulate n (λ i. op (f i) (g i))
unfolding tabulate
zip_with-tabulate op zero f g = refl
zip_with-tabulate op (suc n) f g =
    ap (◌∷◌ (op (f 0) (g 0))) (zip_with-tabulate op n (λ i. f (suc i)) (λ i. g (suc i)))

pub AllPairs-length {ℓ κ μ} :
    {A : Type ℓ} {B : Type κ} {P : A → B → Type μ} {xs : List A} {ys : List B}
    → AllPairs P xs ys
    → length xs ≡ length ys
AllPairs-length nil = refl
AllPairs-length (cons p ps) = ap suc (AllPairs-length ps)

pub zip_with-map {ℓ κ μ ν} :
    {A : Type ℓ} {B : Type κ} {C : Type μ} {D : Type ν} (op : B → C → D) (f : A → B) (g : A → C)
    (xs : List A)
    → zip_with op (map f xs) (map g xs) ≡ map (λ x. op (f x) (g x)) xs
zip_with-map op f g [] = refl
zip_with-map op f g (x ∷ xs) = ap (◌∷◌ (op (f x) (g x))) (zip_with-map op f g xs)

pub map-snoc {ℓ κ} :
    {A : Type ℓ} {B : Type κ} (f : A → B) (xs : List A) (x : A)
    → map f (xs ++ x ∷ []) ≡ map f xs ++ f x ∷ []
map-snoc f xs x = map-append f xs (x ∷ [])

-- Two ways to map a list twice.
pub map-agree {ℓ κ μ ν} :
    {A : Type ℓ} {B : Type κ} {C : Type μ} {D : Type ν} (f : B → D) (g : A → B) (f' : C → D)
    (g' : A → C)
    → ((x : A) → f (g x) ≡ f' (g' x))
    → (xs : List A) → map f (map g xs) ≡ map f' (map g' xs)
map-agree f g f' g' h [] = refl
map-agree f g f' g' h (x ∷ xs) = ap₂ ◌∷◌ (h x) (map-agree f g f' g' h xs)

pub take-map {ℓ κ} :
    {A : Type ℓ} {B : Type κ} (f : A → B) (n : ℕ) (xs : List A)
    → take n (map f xs) ≡ map f (take n xs)
take-map f zero xs = refl
take-map f (suc n) [] = refl
take-map f (suc n) (x ∷ xs) = ap (◌∷◌ (f x)) (take-map f n xs)

pub map-tabulate {ℓ κ} :
    {A : Type ℓ} {B : Type κ} (f : A → B) (n : ℕ) (g : ℕ → A)
    → map f (tabulate n g) ≡ tabulate n (λ i. f (g i))
unfolding tabulate
map-tabulate f zero g = refl
map-tabulate f (suc n) g = ap (◌∷◌ (f (g 0))) (map-tabulate f n (λ i. g (suc i)))

pub tabulate-agree {ℓ} :
    {A : Type ℓ} (n : ℕ) (f g : ℕ → A) → ((i : ℕ) → i < n → f i ≡ g i) → tabulate n f ≡ tabulate n g
unfolding tabulate
tabulate-agree zero f g h = refl
tabulate-agree (suc n) f g h =
    ap₂ ◌∷◌ (h 0 (omega arith))
      (tabulate-agree n (λ i. f (suc i)) (λ i. g (suc i)) (λ i lt. h (suc i) (omega arith)))

pub tabulate-AllPairs {ℓ κ μ} :
    {A : Type ℓ} {B : Type κ} {Q : A → B → Type μ} (n : ℕ) (f : ℕ → A) (g : ℕ → B)
    → ((i : ℕ) → i < n → Q (f i) (g i))
    → AllPairs Q (tabulate n f) (tabulate n g)
unfolding tabulate
tabulate-AllPairs zero f g h = nil
tabulate-AllPairs (suc n) f g h =
    cons (h 0 (omega arith))
      (tabulate-AllPairs n (λ i. f (suc i)) (λ i. g (suc i)) (λ i lt. h (suc i) (omega arith)))

pub take-tabulate {ℓ} :
    {A : Type ℓ} (s n : ℕ) (f : ℕ → A) → s ≤ n → take s (tabulate n f) ≡ tabulate s f
unfolding tabulate
take-tabulate zero n f h = refl
take-tabulate (suc s) zero f h = absurd (omega arith)
take-tabulate (suc s) (suc n) f h =
    ap (◌∷◌ (f 0)) (take-tabulate s n (λ i. f (suc i)) (omega arith))

-- One table after another.
pub tabulate-append {ℓ} :
    {A : Type ℓ} (m n : ℕ) (f g h : ℕ → A)
    → ((i : ℕ) → i < m → f i ≡ h i)
    → ((i : ℕ) → g i ≡ h (m + i))
    → tabulate m f ++ tabulate n g ≡ tabulate (m + n) h
unfolding tabulate
tabulate-append zero n f g h first second =
    tabulate-agree n g h (λ i _. second i ∙ ap h {x = zero + i} {y = i} (omega arith))
    ∙ ap (λ m. tabulate m h) {x = n} {y = zero + n} (omega arith)
tabulate-append (suc m) n f g h first second =
    ap₂ ◌∷◌ (first 0 (omega arith)) (
      tabulate-append m n (λ i. f (suc i)) g (λ i. h (suc i)) (λ i lt. first (suc i) (omega arith))
        (λ i. second i ∙ ap h {x = suc m + i} {y = suc (m + i)} (omega arith)))
    ∙ ap (λ k. tabulate k h) {x = suc (m + n)} {y = suc m + n} (omega arith)

pub append-AllPairs {ℓ κ μ} :
    {A : Type ℓ} {B : Type κ} {Q : A → B → Type μ} {us vs : List A} {xs ys : List B}
    → AllPairs Q us xs
    → AllPairs Q vs ys
    → AllPairs Q (us ++ vs) (xs ++ ys)
append-AllPairs nil q = q
append-AllPairs (cons p ps) q = cons p (append-AllPairs ps q)

pub AllPairs-split {ℓ κ μ} :
    {A : Type ℓ} {B : Type κ} {Q : A → B → Type μ} {us : List A} (xs : List B) {ys : List B}
    → AllPairs Q us (xs ++ ys)
    → (vs : List A) × (ws : List A) × (us ≡ vs ++ ws) × AllPairs Q vs xs × AllPairs Q ws ys
AllPairs-split [] h = ([], _, refl, nil, h)
AllPairs-split (x ∷ xs) (cons {a = u} p ps) =
    let (vs, ws, e, hv, hw) = AllPairs-split xs ps in (u ∷ vs, ws, ap (◌∷◌ u) e, cons p hv, hw)

pub take-append {ℓ} : {A : Type ℓ} (xs ys : List A) → take (length xs) (xs ++ ys) ≡ xs
take-append [] ys = refl
take-append (x ∷ xs) ys = ap (◌∷◌ x) (take-append xs ys)

pub drop-append {ℓ} : {A : Type ℓ} (xs ys : List A) → drop (length xs) (xs ++ ys) ≡ ys
drop-append [] ys = refl
drop-append (x ∷ xs) ys = drop-append xs ys
