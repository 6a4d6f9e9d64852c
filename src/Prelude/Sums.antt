-- ===== src/Prelude/Sums.antt =====
-- Sums over the indices below a number.
use Prim.Native.Nat.{ℕ, zero, suc, ◌+◌, ◌*◌, ◌<◌, ◌≤◌}
use mathlib.Core.Path.{◌≡◌, refl, ap, ap₂, ◌∙◌, sym}
use mathlib.Core.Bool.{true, false}
use native.Mathlib.Omega.{arith}
use native.Mathlib.Nat.{mul-suc}
use mathlib.Core.Logic.{◌⊎◌, inl, inr}
use iris_mpc.Prelude.Tests.{◌==◌, if◌then◌else◌}

unfoldable pub sum_below : ℕ → (ℕ → ℕ) → ℕ
sum_below zero f = 0
sum_below (suc n) f = sum_below n f + f n

pub sum-agree :
    (n : ℕ) (f g : ℕ → ℕ) → ((i : ℕ) → i < n → f i ≡ g i) → sum_below n f ≡ sum_below n g
unfolding sum_below
sum-agree zero f g h = refl
sum-agree (suc n) f g h = ap₂ ◌+◌ (sum-agree n f g (λ i lt. h i (omega arith))) (h n (omega arith))

sum-zero : (n : ℕ) → sum_below n (λ i. 0) ≡ 0
unfolding sum_below
sum-zero zero = refl
sum-zero (suc n) = omega (arith, sum-zero n)

pub sum-add : (n : ℕ) (f g : ℕ → ℕ) → sum_below n (λ i. f i + g i) ≡ sum_below n f + sum_below n g
unfolding sum_below
sum-add zero f g = refl
sum-add (suc n) f g = omega (arith, sum-add n f g)

sum-swap :
    (n m : ℕ) (f : ℕ → ℕ → ℕ)
    → sum_below n (λ i. sum_below m (f i)) ≡ sum_below m (λ j. sum_below n (λ i. f i j))
unfolding sum_below
sum-swap zero m f = sym (sum-zero m)
sum-swap (suc n) m f =
    ap (λ s. s + sum_below m (f n)) (sum-swap n m f)
    ∙ sym (sum-add m (λ j. sum_below n (λ i. f i j)) (f n))

-- Its value at one index only.
abbrev only_at : ℕ → (ℕ → ℕ) → ℕ → ℕ
only_at k f i = if i == k then f i else 0

only_at-other : (k i : ℕ) (f : ℕ → ℕ) → ((i == k) ≡ false) → only_at k f i ≡ 0
only_at-other k i f e = rw e refl

only_at-here : (k i : ℕ) (f : ℕ → ℕ) → ((i == k) ≡ true) → only_at k f i ≡ f i
only_at-here k i f e = rw e refl

sum-none : (n k : ℕ) (f : ℕ → ℕ) → n ≤ k → sum_below n (only_at k f) ≡ 0
sum-none n k f h =
    sum-agree n (only_at k f) (λ i. 0) (λ i lt. only_at-other k i f (ground arith)) ∙ sum-zero n

sum-only : (n k : ℕ) (f : ℕ → ℕ) → k < n → sum_below n (only_at k f) ≡ f k
unfolding sum_below
sum-only zero k f h = absurd (omega arith)
sum-only (suc n) k f h = elim (below k n h) [
  | inl lt ↦ omega (arith, sum-only n k f lt, only_at-other k n f (ground arith))
  | inr e ↦ omega (arith, sum-none n k f (omega arith), only_at-here k n f (ground arith), ap f e)
]
  where
    below : (k n : ℕ) → k < suc n → (k < n) ⊎ (k ≡ n)
    below k n h = omega arith

-- A sum in another order, from an index to its image.
module _ (n : ℕ) (to from : ℕ → ℕ) (to-lt : (i : ℕ) → i < n → to i < n)
    (from-lt : (i : ℕ) → i < n → from i < n) (from_to : (i : ℕ) → i < n → from (to i) ≡ i)
    (to_from : (i : ℕ) → i < n → to (from i) ≡ i) (f : ℕ → ℕ) where
  same_index : (i j : ℕ) → i < n → j < n → only_at (to i) f j ≡ only_at (from j) (λ _. f j) i
  same_index i j hi hj =
      ap (λ b. if b then f j else 0)
        (test i j (to i) (from j) (λ e. ap from e ∙ from_to i hi) (λ e. ap to e ∙ to_from j hj))
    where
      test : (i j k l : ℕ) → (j ≡ k → l ≡ i) → (i ≡ l → k ≡ j) → (j == k) ≡ (i == l)
      test i j k l p q = ground arith

  pub sum-bijection : sum_below n (λ i. f (to i)) ≡ sum_below n f
  sum-bijection =
      sum-agree n (λ i. f (to i)) (λ i. sum_below n (only_at (to i) f))
        (λ i hi. sym (sum-only n (to i) f (to-lt i hi)))
      ∙ sum-swap n n (λ i. only_at (to i) f)
      ∙ sum-agree n (λ j. sum_below n (λ i. only_at (to i) f j)) f
          λ j hj.
            sum-agree n (λ i. only_at (to i) f j) (only_at (from j) (λ _. f j))
              (λ i hi. same_index i j hi hj)
            ∙ sum-only n (from j) (λ _. f j) (from-lt j hj)

pub sum-append :
    (m n : ℕ) (f : ℕ → ℕ) → sum_below (n + m) f ≡ sum_below m f + sum_below n (λ i. f (m + i))
unfolding sum_below
sum-append m zero f = ap (λ k. sum_below k f) {x = zero + m} {y = m} (omega arith) ∙ omega arith
sum-append m (suc n) f =
    ap (λ k. sum_below k f) {x = suc n + m} {y = suc (n + m)} (omega arith)
    ∙ omega (arith, sum-append m n f, ap f {x = n + m} {y = m + n} (omega arith))

-- A sum over blocks of indices.
pub sum-blocks :
    (n size : ℕ) (f : ℕ → ℕ)
    → sum_below n (λ w. sum_below size (λ b. f (size * w + b))) ≡ sum_below (size * n) f
unfolding sum_below
sum-blocks zero size f = ap (λ k. sum_below k f) {x = zero} {y = size * zero} (omega arith)
sum-blocks (suc n) size f =
    ap (λ s. s + sum_below size (λ b. f (size * n + b))) (sum-blocks n size f)
    ∙ sym (sum-append (size * n) size f)
    ∙ ap (λ k. sum_below k f) {x = size + size * n} {y = size * suc n}
        (omega (arith, mul-suc size n))
