-- ===== src/GaloisEngine/Order.antt =====
-- The counts over the remapped indices are counts over the positions themselves.
use iris_mpc.Prelude.{ℕ, zero, suc, ◌+◌, ◌*◌, ◌/◌, ◌<◌, ◌≡◌, ◌∙◌, refl, sym, ap, Bool, arith}
use iris_mpc.Prelude.Bits.{to_nat}
use iris_mpc.Prelude.Sums.{sum_below, sum-agree, sum-append, sum-bijection}
use iris_mpc.GaloisEngine.{remap_index}
use iris_mpc.GaloisEngine.Positions.{original_index, remap_index-original_index}
use iris_mpc.GaloisEngine.Counts.{count}

count-sum :
    (p : ℕ → Bool) (n i : ℕ)
    → count p n i ≡ sum_below (n * 4) (λ k. to_nat (p (remap_index (i + k))))
unfolding count sum_below
count-sum p zero i = refl
count-sum p (suc n) i =
    let f : ℕ → ℕ = λ k. to_nat (p (remap_index k)) in
    omega (
      arith,
      count-sum p n (i + 4),
      sum-append 4 (n * 4) (λ k. f (i + k)),
      ap f {x = i} {y = i + 0} (omega arith),
      sum-agree (n * 4) (λ k. f (i + 4 + k)) (λ k. f (i + (4 + k)))
          (λ k _. ap f {x = i + 4 + k} {y = i + (4 + k)} (omega arith)),
      ap (λ m. sum_below m (λ k. f (i + k))) {x = suc n * 4} {y = n * 4 + 4} (omega arith),
    )

count-range :
    (p : ℕ → Bool) (n m : ℕ)
    → m ≡ n * 4
    → count p n 0 ≡ sum_below m (λ k. to_nat (p (remap_index k)))
count-range p n m e =
    let f : ℕ → ℕ = λ k. to_nat (p (remap_index k)) in
    count-sum p n 0
    ∙ sum-agree (n * 4) (λ k. f (0 + k)) f (λ k _. ap f {x = 0 + k} {y = k} (omega arith))
    ∙ ap (λ m. sum_below m f) (sym e)

-- Over all indices: the number of positions at which the test holds.
pub count-all : (p : ℕ → Bool) → count p 3200 0 ≡ sum_below 12800 (λ k. to_nat (p k))
count-all p =
    count-range p 3200 12800 refl
    ∙ sum-bijection 12800 remap_index original_index (λ i h. (remap_index-original_index i h).0)
        (λ i h. (remap_index-original_index i h).1) (λ i h. (remap_index-original_index i h).2)
        (λ i h. (remap_index-original_index i h).3) (λ k. to_nat (p k))

half_bounds :
    (i : ℕ)
    → i < 6400
    → (remap_index i / 2 < 6400)
      × (original_index (2 * i) < 6400)
      × (original_index (2 * (remap_index i / 2)) ≡ i)
      × (remap_index (original_index (2 * i)) / 2 ≡ i)
      × (remap_index i ≡ 2 * (remap_index i / 2))
unfolding remap_index
half_bounds i h = (omega arith, omega arith, omega arith, omega arith, omega arith)

-- Over the first half of the indices: the number of even positions at which the test holds.
pub count-half : (p : ℕ → Bool) → count p 1600 0 ≡ sum_below 6400 (λ j. to_nat (p (2 * j)))
count-half p =
    let f : ℕ → ℕ = λ j. to_nat (p (2 * j)) in
    count-range p 1600 6400 refl
    ∙ sum-agree 6400 (λ k. to_nat (p (remap_index k))) (λ k. f (remap_index k / 2))
        (λ k h. ap (λ i. to_nat (p i)) (half_bounds k h).4)
    ∙ sum-bijection 6400 (λ k. remap_index k / 2) (λ j. original_index (2 * j))
        (λ i h. (half_bounds i h).0) (λ i h. (half_bounds i h).1) (λ i h. (half_bounds i h).2)
        (λ i h. (half_bounds i h).3) f
