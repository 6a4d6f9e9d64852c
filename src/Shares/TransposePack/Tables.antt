-- ===== src/Shares/TransposePack/Tables.antt =====
-- Vectors that are given by their indices: filled up, cut into chunks, and with a word replaced.
use iris_mpc.Prelude.{
  ℕ, zero, suc, ◌+◌, ◌-◌, ◌*◌, ◌≤◌, ◌<◌, ◌⊎◌, ◌≡◌, ◌∙◌, refl, ap, ap₂, fun_ext, ◌∷◌, some,
  take-tabulate, drop, tabulate, arith,
}
use native.Mathlib.Nat.{mul-suc}
use iris_mpc.Shares.Share.{Share}
use iris_mpc.Shares.Transpose.{set}
use iris_mpc.Shares.TransposePack.{resize, chunks}

-- The first `k` values of `f`, and `x` from there on.
abbrev pub padded : ℕ → (ℕ → Share) → Share → ℕ → Share
padded zero f x i = x
padded (suc k) f x zero = f 0
padded (suc k) f x (suc i) = padded k (λ i. f (suc i)) x i

pub resize-tabulate :
    (k n : ℕ) (f : ℕ → Share) (x : Share) → resize (tabulate k f) n x ≡ tabulate n (padded k f x)
unfolding tabulate
resize-tabulate zero zero f x = refl
resize-tabulate (suc k) zero f x = refl
resize-tabulate zero (suc n) f x = ap (◌∷◌ x) (resize-tabulate zero n f x)
resize-tabulate (suc k) (suc n) f x = ap (◌∷◌ (f 0)) (resize-tabulate k n (λ i. f (suc i)) x)

pub drop-tabulate :
    (s n : ℕ) (f : ℕ → Share) → s ≤ n → drop s (tabulate n f) ≡ tabulate (n - s) (λ i. f (s + i))
unfolding tabulate
drop-tabulate zero n f h =
    ap₂ (λ n f. tabulate n f) {y = n - 0} (omega arith)
      (fun_ext λ i. ap f {y = 0 + i} (omega arith))
drop-tabulate (suc s) zero f h = absurd (omega arith)
drop-tabulate (suc s) (suc n) f h =
    drop-tabulate s n (λ i. f (suc i)) (omega arith)
    ∙ ap₂ (λ n f. tabulate n f) {x = n - s} {y = suc n - suc s} (omega arith)
        (fun_ext λ i. ap f {x = suc (s + i)} {y = suc s + i} (omega arith))

pub chunks-tabulate :
    (size count n : ℕ) (f : ℕ → Share)
    → size * count ≤ n
    → chunks size count (tabulate n f) ≡ tabulate count (λ j. tabulate size (λ b. f (size * j + b)))
unfolding tabulate
chunks-tabulate size zero n f h = refl
chunks-tabulate size (suc count) n f h =
    ap₂ ◌∷◌
      (take-tabulate size n f (omega (arith, mul-suc size count))
        ∙ ap (tabulate size) (fun_ext λ b. ap f {x = b} {y = size * 0 + b} (omega arith)))
      (ap (chunks size count) (drop-tabulate size n f (omega (arith, mul-suc size count)))
        ∙ chunks-tabulate size count (n - size) (λ i. f (size + i))
            (omega (arith, mul-suc size count))
        ∙ ap (tabulate count) (
            fun_ext λ j. ap (tabulate size) (
              fun_ext λ b.
                ap f {x = size + (size * j + b)} {y = size * suc j + b}
                  (omega (arith, mul-suc size j)))))

-- The value `x` at the index `j`.
abbrev pub put : (ℕ → Share) → ℕ → Share → ℕ → Share
put h zero x zero = x
put h zero x (suc i) = h (suc i)
put h (suc j) x zero = h 0
put h (suc j) x (suc i) = put (λ i. h (suc i)) j x i

pub set-tabulate :
    (n j : ℕ) (h : ℕ → Share) (x : Share)
    → j < n
    → set (tabulate n h) j x ≡ some (tabulate n (put h j x))
unfolding tabulate
set-tabulate zero j h x lt = absurd (omega arith)
set-tabulate (suc n) zero h x lt = refl
set-tabulate (suc n) (suc j) h x lt = rw (set-tabulate n j (λ i. h (suc i)) x (omega arith)) refl

pub put-here : (h : ℕ → Share) (j : ℕ) (x : Share) → put h j x j ≡ x
put-here h zero x = refl
put-here h (suc j) x = put-here (λ i. h (suc i)) j x

pub put-other : (h : ℕ → Share) (j : ℕ) (x : Share) (i : ℕ) → (i < j) ⊎ (j < i) → put h j x i ≡ h i
put-other h zero x zero apart = absurd (omega arith)
put-other h zero x (suc i) apart = refl
put-other h (suc j) x zero apart = refl
put-other h (suc j) x (suc i) apart = put-other (λ i. h (suc i)) j x i (omega arith)
