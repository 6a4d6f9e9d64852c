-- ===== src/Shares/Transpose/Join.antt =====
-- The bits of words that are put together of narrower ones.
use iris_mpc.Prelude.{
  ℕ, zero, suc, ◌+◌, ◌*◌, ◌^◌, ◌<◌, ◌≡◌, ◌∙◌, refl, ap, Bool, false, ◌||◌, List, [], ◌∷◌, map,
  length, some, get_elem?, tabulate, bit_or, arith,
}
use native.Mathlib.Nat.{mul-suc}
use iris_mpc.Prelude.Bits.{bit_at, bit_at-zero, bit_at-bit_or}
use iris_mpc.Prelude.Shifts.{bit_at-high, bit_at-shl, bit_at-shl_low}
use iris_mpc.Shares.Share.{Share}
use iris_mpc.Shares.Transpose.{join, joined}

or_false : (b d : Bool) → d ≡ false → (b || d) ≡ b
or_false b d h = ground arith

false_or : (b d : Bool) → b ≡ false → (b || d) ≡ d
false_or b d h = ground arith

join-low : (k s acc : ℕ) (xs : List ℕ) (i : ℕ) → i < s → bit_at (join k s acc xs) i ≡ bit_at acc i
join-low k s acc [] i h = λ _. bit_at acc i
join-low k s acc (x ∷ xs) i h =
    join-low k (s + k) (bit_or acc (x * 2 ^ s)) xs i (omega arith)
    ∙ bit_at-bit_or acc (x * 2 ^ s) i
    ∙ or_false (bit_at acc i) (bit_at (x * 2 ^ s) i) (bit_at-shl_low x s i h)

-- All words of the list are below the bound.
pub record AreBelow (k : ℕ) (xs : List ℕ) : Type 0 where
  pub lt : (q x : ℕ) → get_elem? xs q ≡ some x → x < 2 ^ k

module _ (k : ℕ) where
  AreBelow-tail : (y : ℕ) (ys : List ℕ) → AreBelow k (y ∷ ys) → AreBelow k ys
  AreBelow-tail y ys h = record { lt = λ q. h.lt (suc q) }

  or-clear :
      (s acc y : ℕ)
      → ((i : ℕ) → bit_at acc (s + i) ≡ false)
      → y < 2 ^ k
      → (i : ℕ) → bit_at (bit_or acc (y * 2 ^ s)) (s + k + i) ≡ false
  or-clear s acc y clear small i =
      let place : s + k + i ≡ s + (k + i) = omega arith in
      ap (bit_at (bit_or acc (y * 2 ^ s))) place
      ∙ bit_at-bit_or acc (y * 2 ^ s) (s + (k + i))
      ∙ false_or (bit_at acc (s + (k + i))) (bit_at (y * 2 ^ s) (s + (k + i))) (clear (k + i))
      ∙ bit_at-shl y s (k + i)
      ∙ bit_at-high k y i small

  join-bit :
      (s acc : ℕ) (xs : List ℕ) (q x r : ℕ)
      → ((i : ℕ) → bit_at acc (s + i) ≡ false)
      → AreBelow k xs
      → get_elem? xs q ≡ some x
      → r < k
      → bit_at (join k s acc xs) (s + (k * q + r)) ≡ bit_at x r
  join-bit s acc [] q x r clear small e h = absurd (ground arith)
  join-bit s acc (y ∷ ys) zero x r clear small e h =
      let same : y ≡ x = ground arith in
      let index : s + (k * 0 + r) ≡ s + r = omega arith in
      ap (bit_at (join k (s + k) (bit_or acc (y * 2 ^ s)) ys)) index
      ∙ join-low k (s + k) (bit_or acc (y * 2 ^ s)) ys (s + r) (omega arith)
      ∙ bit_at-bit_or acc (y * 2 ^ s) (s + r)
      ∙ false_or (bit_at acc (s + r)) (bit_at (y * 2 ^ s) (s + r)) (clear r)
      ∙ bit_at-shl y s r
      ∙ ap (λ z. bit_at z r) same
  join-bit s acc (y ∷ ys) (suc q) x r clear small e h =
      let index : s + (k * suc q + r) ≡ (s + k) + (k * q + r) = omega (arith, mul-suc k q) in
      ap (bit_at (join k (s + k) (bit_or acc (y * 2 ^ s)) ys)) index
      ∙ join-bit (s + k) (bit_or acc (y * 2 ^ s)) ys q x r
          (or-clear s acc y clear (small.lt 0 y (λ _. some y))) (AreBelow-tail y ys small) e h

  join-high :
      (s acc : ℕ) (xs : List ℕ) (i : ℕ)
      → ((i : ℕ) → bit_at acc (s + i) ≡ false)
      → AreBelow k xs
      → bit_at (join k s acc xs) (s + (k * length xs + i)) ≡ false
  join-high s acc [] i clear small = clear (k * 0 + i)
  join-high s acc (y ∷ ys) i clear small =
      let index : s + (k * suc (length ys) + i) ≡ (s + k) + (k * length ys + i) =
        omega (arith, mul-suc k (length ys)) in
      ap (bit_at (join k (s + k) (bit_or acc (y * 2 ^ s)) ys)) index
      ∙ join-high (s + k) (bit_or acc (y * 2 ^ s)) ys i
          (or-clear s acc y clear (small.lt 0 y (λ _. some y))) (AreBelow-tail y ys small)

  -- Above those that are put together there are no bits.
  pub joined-high :
      (xs : List ℕ) (i : ℕ) → AreBelow k xs → bit_at (joined k xs) (k * length xs + i) ≡ false
  joined-high [] i small = bit_at-zero (k * 0 + i)
  joined-high (y ∷ ys) i small =
      let index : k * suc (length ys) + i ≡ k + (k * length ys + i) =
        omega (arith, mul-suc k (length ys)) in
      ap (bit_at (join k k y ys)) index
      ∙ join-high k y ys i (λ i. bit_at-high k y i (small.lt 0 y (λ _. some y)))
          (AreBelow-tail y ys small)

  -- The bit `r` of the word `q` of those that are put together.
  pub joined-bit :
      (xs : List ℕ) (q x r : ℕ)
      → AreBelow k xs
      → get_elem? xs q ≡ some x
      → r < k
      → bit_at (joined k xs) (k * q + r) ≡ bit_at x r
  joined-bit [] q x r small e h = absurd (ground arith)
  joined-bit (y ∷ ys) zero x r small e h =
      let same : y ≡ x = ground arith in
      let index : k * 0 + r ≡ r = omega arith in
      ap (bit_at (join k k y ys)) index ∙ join-low k k y ys r h ∙ ap (λ z. bit_at z r) same
  joined-bit (y ∷ ys) (suc q) x r small e h =
      let index : k * suc q + r ≡ k + (k * q + r) = omega (arith, mul-suc k q) in
      ap (bit_at (join k k y ys)) index
      ∙ join-bit k y ys q x r (λ i. bit_at-high k y i (small.lt 0 y (λ _. some y)))
          (AreBelow-tail y ys small) e h

-- The elements of a list that is given by its indices.
module _ (p : Share → ℕ) (k : ℕ) where
  pub get_elem?-tabulate :
      (d : ℕ) (h : ℕ → Share) (q : ℕ) → q < d → get_elem? (map p (tabulate d h)) q ≡ some (p (h q))
  unfolding tabulate
  get_elem?-tabulate zero h q lt = absurd (omega arith)
  get_elem?-tabulate (suc d) h zero lt = refl
  get_elem?-tabulate (suc d) h (suc q) lt = get_elem?-tabulate d (λ i. h (suc i)) q (omega arith)

  pub tabulate-AreBelow :
      (d : ℕ) (h : ℕ → Share) → ((i : ℕ) → p (h i) < 2 ^ k) → AreBelow k (map p (tabulate d h))
  unfolding tabulate
  tabulate-AreBelow zero h small = record { lt = λ q x e. absurd (ground arith) }
  tabulate-AreBelow (suc d) h small = record {
    lt = lt (tabulate-AreBelow d (λ i. h (suc i)) (λ i. small (suc i)));
  }
    where
      lt :
          AreBelow k (map p (tabulate d (λ i. h (suc i))))
          → (q x : ℕ) → get_elem? (p (h 0) ∷ map p (tabulate d (λ i. h (suc i)))) q ≡ some x
          → x < 2 ^ k
      lt rest zero x e = let same : p (h 0) ≡ x = ground arith in omega (arith, small 0)
      lt rest (suc q) x e = rest.lt q x e
