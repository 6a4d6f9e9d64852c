-- ===== src/GaloisEngine/Positions.antt =====
-- `remap_index` goes through all positions.
use iris_mpc.Prelude.{ℕ, ◌+◌, ◌*◌, ◌/◌, ◌%◌, ◌<◌, ◌≡◌, arith}
use iris_mpc.GaloisEngine.{remap_index}

-- The index that is mapped to a position.
abbrev pub original_index : ℕ → ℕ
original_index k =
    let r = k / 800 in
    let c = k % 800 / 4 in
    let w = k % 4 / 2 in let b = k % 2 in b * 6400 + w * 3200 + (r % 4) * 800 + c * 4 + r / 4

-- Below 12,800 the mapping of indices stays below 12,800, and is a bijection.
pub remap_index-original_index :
    (i : ℕ)
    → i < 12800
    → (remap_index i < 12800)
      × (original_index i < 12800)
      × (original_index (remap_index i) ≡ i)
      × (remap_index (original_index i) ≡ i)
unfolding remap_index
remap_index-original_index i h = (omega arith, omega arith, omega arith, omega arith)
