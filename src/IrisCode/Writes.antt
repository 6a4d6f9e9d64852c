-- ===== src/IrisCode/Writes.antt =====
-- What `set_bit` and `flip_bit` do to every bit.
use iris_mpc.Prelude.{
  ℕ, zero, suc, ◌-◌, ◌/◌, ◌%◌, ◌^◌, ◌<◌, ◌≡◌, ◌∙◌, ap, Bool, true, false, not, ◌==◌, if◌then◌else◌,
  bit_and, bit_or, bit_xor, arith,
}
use iris_mpc.Prelude.Bits.{bit_at, bit_at-zero, bit_at-bit_and, bit_at-bit_or, bit_at-bit_xor}
use native.Mathlib.Nat.{pow-suc}
use iris_mpc.IrisCode.{IrisCodeArray, with_word, set_bit, get_bit, flip_bit}
use iris_mpc.IrisCode.Arrays.{get_bit-bit_at}

bit_at-power : (k j : ℕ) → bit_at (2 ^ k) j ≡ (j == k)
bit_at-power zero zero = ground arith
bit_at-power zero (suc j) = bit_at-zero j ∙ ground arith
bit_at-power (suc k) zero = ground (arith, pow-suc 2 k)
bit_at-power (suc k) (suc j) =
    ap (λ n. bit_at n j) {x = 2 ^ suc k / 2} {y = 2 ^ k} (omega (arith, pow-suc 2 k))
    ∙ bit_at-power k j
    ∙ ground arith

bit_at-complement : (n a j : ℕ) → a < 2 ^ n → j < n → bit_at (2 ^ n - 1 - a) j ≡ not (bit_at a j)
bit_at-complement zero a j h lt = absurd (omega arith)
bit_at-complement (suc n) a zero h lt = ground (arith, pow-suc 2 n)
bit_at-complement (suc n) a (suc j) h lt =
    ap (λ m. bit_at m j) {x = (2 ^ suc n - 1 - a) / 2} {y = 2 ^ n - 1 - a / 2}
      (omega (arith, pow-suc 2 n))
    ∙ bit_at-complement n (a / 2) j (omega (arith, pow-suc 2 n)) (omega arith)

power-lt : (k n : ℕ) → k < n → 2 ^ k < 2 ^ n
power-lt zero zero h = absurd (omega arith)
power-lt zero (suc zero) h = omega arith
power-lt zero (suc (suc n)) h =
    omega (arith, power-lt zero (suc n) (omega arith), pow-suc 2 (suc n))
power-lt (suc k) zero h = absurd (omega arith)
power-lt (suc k) (suc n) h = omega (arith, power-lt k n (omega arith), pow-suc 2 k, pow-suc 2 n)

get_bit-with_word :
    (code : IrisCodeArray) (i j w : ℕ)
    → get_bit (with_word code (i / 64) w) j
      ≡ (if j / 64 == i / 64 then bit_at w (j % 64) else get_bit code j)
get_bit-with_word code i j w =
    rw (get_bit-bit_at (with_word code (i / 64) w) j, get_bit-bit_at code j) (ground arith)

-- The bit of a word that is written at the place of `i`, at the position `j`.
module _ (code : IrisCodeArray) (i j : ℕ) where
  set_true :
      (if j / 64 == i / 64
        then bit_at (bit_or (code (i / 64)) (2 ^ (i % 64))) (j % 64)
        else get_bit code j)
      ≡ (if j == i then true else get_bit code j)
  set_true =
      rw
        (
          bit_at-bit_or (code (i / 64)) (2 ^ (i % 64)) (j % 64),
          bit_at-power (i % 64) (j % 64),
          get_bit-bit_at code j,
        )
        (ground arith)

  set_false :
      (if j / 64 == i / 64
        then bit_at (bit_and (code (i / 64)) (2 ^ 64 - 1 - 2 ^ (i % 64))) (j % 64)
        else get_bit code j)
      ≡ (if j == i then false else get_bit code j)
  set_false =
      rw
        (
          bit_at-bit_and (code (i / 64)) (2 ^ 64 - 1 - 2 ^ (i % 64)) (j % 64),
          bit_at-complement 64 (2 ^ (i % 64)) (j % 64) (power-lt (i % 64) 64 (omega arith))
              (omega arith),
          bit_at-power (i % 64) (j % 64),
          get_bit-bit_at code j,
        )
        (ground arith)

  flipped :
      (if j / 64 == i / 64
        then bit_at (bit_xor (code (i / 64)) (2 ^ (i % 64))) (j % 64)
        else get_bit code j)
      ≡ (if j == i then not (get_bit code j) else get_bit code j)
  flipped =
      rw
        (
          bit_at-bit_xor (code (i / 64)) (2 ^ (i % 64)) (j % 64),
          bit_at-power (i % 64) (j % 64),
          get_bit-bit_at code j,
        )
        (ground arith)

-- Setting the bit `i` to `val` changes no other bit, and flipping it inverts it and changes no other
-- bit.
pub get_bit-set_bit :
    (code : IrisCodeArray) (i j : ℕ) (val : Bool)
    → (get_bit (set_bit code i val) j ≡ (if j == i then val else get_bit code j))
      × (get_bit (flip_bit code i) j ≡ (if j == i then not (get_bit code j) else get_bit code j))
unfolding set_bit flip_bit
get_bit-set_bit code i j true = (
  get_bit-with_word code i j (bit_or (code (i / 64)) (2 ^ (i % 64))) ∙ set_true code i j,
  get_bit-with_word code i j (bit_xor (code (i / 64)) (2 ^ (i % 64))) ∙ flipped code i j,
)
get_bit-set_bit code i j false = (
  get_bit-with_word code i j (bit_and (code (i / 64)) (2 ^ 64 - 1 - 2 ^ (i % 64)))
      ∙ set_false code i j,
  get_bit-with_word code i j (bit_xor (code (i / 64)) (2 ^ (i % 64))) ∙ flipped code i j,
)
