-- ===== src/Protocol/Extract/Bits.antt =====
-- What the rows' columns add up to, and their bits.
use iris_mpc.Prelude.{
  ℕ, zero, suc, ◌+◌, ◌*◌, ◌/◌, ◌%◌, ◌^◌, ◌<◌, ◌≡◌, ◌∙◌, refl, sym, ap, ap₂, Bool, map, tabulate,
  map-tabulate, tabulate-agree, arith,
}
use native.Mathlib.Nat.{mod-eq_of_lt}
use iris_mpc.Prelude.Bits.{bit_at, to_nat}
use iris_mpc.Prelude.Shifts.{mod-pow, bit_at-mod}
use iris_mpc.Id.{Trio, map_trio}
use iris_mpc.Shares.Share.{Share, zero_share}
use iris_mpc.Shares.Sharing.{IsSharing}
use iris_mpc.Shares.TransposePack.Tables.{padded}
use iris_mpc.Shares.TransposePack.Correct.{chunk_count}
use iris_mpc.Shares.TransposePack.Packer.{Packer, u32_packer}
use iris_mpc.Protocol.Adder.Sum.{value}
use iris_mpc.Protocol.Adder.Columns.{place, total_at}
use iris_mpc.Protocol.Extract.Rows.{packed0, packed1, packed2, components}

-- A number is the value of its bits.
value-bits : (n a : ℕ) → value (tabulate n (bit_at a)) ≡ a % 2 ^ n
unfolding value tabulate
value-bits zero a = omega arith
value-bits (suc n) a = omega (arith, value-bits n (a / 2), mod-pow a n, low a)
  where
    low : (a : ℕ) → to_nat (bit_at a 0) ≡ a % 2
    low a = ground arith

padded-here : (k : ℕ) (f : ℕ → Share) (z : Share) (i : ℕ) → i < k → padded k f z i ≡ f i
padded-here zero f z i h = absurd (omega arith)
padded-here (suc k) f z zero h = refl
padded-here (suc k) f z (suc i) h = padded-here k (λ i. f (suc i)) z i (omega arith)

-- The value of one component's column.
column :
    (p : Trio Bool → Bool) (n j b a : ℕ) (words : ℕ → Trio (ℕ → ℕ))
    → a < 2 ^ n
    → ((r : ℕ) → r < n → p (map_trio (place j b) (words r)) ≡ bit_at a r)
    → value (map p (map (map_trio (place j b)) (tabulate n words))) ≡ a
column p n j b a words h bits =
    ap value (
      ap (map p) (map-tabulate (map_trio (place j b)) n words)
      ∙ map-tabulate p n (λ r. map_trio (place j b) (words r))
      ∙ tabulate-agree n (λ r. p (map_trio (place j b) (words r))) (bit_at a) bits)
    ∙ value-bits n a
    ∙ mod-eq_of_lt h

module _ (p : Packer) (k : ℕ) (t : ℕ → Trio Share) (x : ℕ → ℕ)
    (h : (i : ℕ) → IsSharing p.width (t i) (x i)) where
  module _ (j b : ℕ) (hj : j < chunk_count 64 k) (hb : b < 64) (within : 64 * j + b < k) where
    pub total-components :
        let s = t (64 * j + b) in
        total_at j b (tabulate p.width (components p k t x h)) ≡ s.p0.a + s.p1.a + s.p2.a
    total-components =
        let i = 64 * j + b in
        let words = components p k t x h in
        let e0 =
          column (λ u. u.p0) p.width j b (t i).p0.a words (h i).lt0
            λ r hr.
              (packed0 p k t x h).a r j b hr hj hb
              ∙ ap (λ s. bit_at s.a r) (padded-here k (λ i. (t i).p0) zero_share i within) in
        let e1 =
          column (λ u. u.p1) p.width j b (t i).p1.a words (h i).lt1
            λ r hr.
              (packed1 p k t x h).a r j b hr hj hb
              ∙ ap (λ s. bit_at s.a r) (padded-here k (λ i. (t i).p1) zero_share i within) in
        let e2 =
          column (λ u. u.p2) p.width j b (t i).p2.a words (h i).lt2
            λ r hr.
              (packed2 p k t x h).a r j b hr hj hb
              ∙ ap (λ s. bit_at s.a r) (padded-here k (λ i. (t i).p2) zero_share i within) in
        ap₂ ◌+◌ (ap₂ ◌+◌ e0 e1) e2

-- The highest of the 32 positions of the sum is that of the number.
pub total-bit :
    (k : ℕ) (t : ℕ → Trio Share) (x : ℕ → ℕ) (h : (i : ℕ) → IsSharing 32 (t i) (x i)) (j b : ℕ)
    → j < chunk_count 64 k
    → b < 64
    → 64 * j + b < k
    → bit_at (total_at j b (tabulate 32 (components u32_packer k t x h))) 31
      ≡ bit_at (x (64 * j + b)) 31
total-bit k t x h j b hj hb within =
    let s = t (64 * j + b) in
    ap (λ n. bit_at n 31) (total-components u32_packer k t x h j b hj hb within)
    ∙ sym (bit_at-mod (s.p0.a + s.p1.a + s.p2.a) 32 31 (omega arith))
    ∙ ap (λ n. bit_at n 31) (h (64 * j + b)).value
