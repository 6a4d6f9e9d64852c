-- ===== src/Prelude/Shifts.antt =====
-- The bits of shifted and of truncated numbers.
use Prim.Native.Nat.{ℕ, zero, suc, ◌+◌, ◌*◌, ◌/◌, ◌%◌, ◌<◌, ◌^◌}
use mathlib.Core.Path.{◌≡◌, ap, ap₂, ◌∙◌, sym, refl}
use mathlib.Core.Bool.{false}
use native.Mathlib.Omega.{arith}
use native.Mathlib.Nat.{
  pow-suc, div-div-eq-div-mul, mul_assoc, div-add-mod', add-mul-mod_self_right, mod-eq_of_lt,
  mod-lt,
}
use iris_mpc.Prelude.Bits.{bit_at, bit_at-zero}
use iris_mpc.Prelude.Tests.{◌==◌}

half_pow : (n a : ℕ) → a / (n * 2) ≡ a / 2 / n
half_pow n a = ap (λ d. a / d) double ∙ sym (div-div-eq-div-mul a 2 n)
  where
    double : n * 2 ≡ 2 * n
    double = omega arith

same_bit : {n m i j : ℕ} → n ≡ m → i ≡ j → bit_at n i ≡ bit_at m j
same_bit e f = ap₂ bit_at e f

pub bit_at-shr : (a j i : ℕ) → bit_at (a / 2 ^ j) i ≡ bit_at a (j + i)
bit_at-shr a zero i = same_bit {n = a / 1} {m = a} {i = i} {j = 0 + i} (omega arith) (omega arith)
bit_at-shr a (suc j) i =
    same_bit {i = i} (ap (λ d. a / d) (pow-suc 2 j) ∙ half_pow (2 ^ j) a) refl
    ∙ bit_at-shr (a / 2) j i
    ∙ same_bit {n = a} {i = suc (j + i)} {j = suc j + i} refl (omega arith)

pub bit_at-high : (s a i : ℕ) → a < 2 ^ s → bit_at a (s + i) ≡ false
bit_at-high zero a i h =
    same_bit {n = a} {m = 0} {i = zero + i} (omega arith) refl ∙ bit_at-zero (zero + i)
bit_at-high (suc s) a i h =
    same_bit {n = a} {i = suc s + i} {j = suc (s + i)} refl (omega arith)
    ∙ bit_at-high s (a / 2) i (omega (arith, pow-suc 2 s))

double_mul : (b n : ℕ) → b * (n * 2) ≡ 2 * (b * n)
double_mul b n = sym (mul_assoc b n 2) ∙ omega arith

shl-double : (b s : ℕ) → b * 2 ^ suc s ≡ 2 * (b * 2 ^ s)
shl-double b s = rw (pow-suc 2 s) (double_mul b (2 ^ s))

shl-half : (b s : ℕ) → b * 2 ^ suc s / 2 ≡ b * 2 ^ s
shl-half b s = omega (arith, shl-double b s)

pub bit_at-shl : (b s i : ℕ) → bit_at (b * 2 ^ s) (s + i) ≡ bit_at b i
bit_at-shl b zero i =
    same_bit {n = b * 1} {m = b} {i = zero + i} {j = i} (omega arith) (omega arith)
bit_at-shl b (suc s) i =
    same_bit {n = b * 2 ^ suc s} {i = suc s + i} {j = suc (s + i)} refl (omega arith)
    ∙ same_bit {i = s + i} (shl-half b s) refl
    ∙ bit_at-shl b s i

pub bit_at-shl_low : (b s i : ℕ) → i < s → bit_at (b * 2 ^ s) i ≡ false
bit_at-shl_low b zero i h = absurd (omega arith)
bit_at-shl_low b (suc s) zero h = ground (arith, shl-double b s)
bit_at-shl_low b (suc s) (suc i) h =
    same_bit {i = i} (shl-half b s) refl ∙ bit_at-shl_low b s i (omega arith)

-- The remainder keeps the lowest bit and, shifted, all others.
mod-double : (a n : ℕ) → 0 < n → a % (n * 2) ≡ 2 * (a / 2 % n) + a % 2
mod-double a n h =
    let whole : a ≡ (2 * (a / 2 % n) + a % 2) + (a / 2 / n) * (n * 2) =
      omega (arith, div-add-mod' (a / 2) n, double_mul (a / 2 / n) n) in
    ap (λ x. x % (n * 2)) whole
    ∙ add-mul-mod_self_right (2 * (a / 2 % n) + a % 2) (a / 2 / n) (n * 2)
    ∙ mod-eq_of_lt (omega (arith, mod-lt (a / 2) h))

pub mod-pow : (a w : ℕ) → a % 2 ^ suc w ≡ 2 * (a / 2 % 2 ^ w) + a % 2
mod-pow a w = rw (pow-suc 2 w) (mod-double a (2 ^ w) (pow-pos w))
  where
    pow-pos : (n : ℕ) → 0 < 2 ^ n
    pow-pos zero = omega arith
    pow-pos (suc n) = omega (arith, pow-suc 2 n, pow-pos n)

pub bit_at-mod : (a w i : ℕ) → i < w → bit_at (a % 2 ^ w) i ≡ bit_at a i
bit_at-mod a zero i h = absurd (omega arith)
bit_at-mod a (suc w) zero h = ap (λ r. r == 1) (omega (arith, mod-pow a w))
bit_at-mod a (suc w) (suc i) h =
    same_bit {i = i} (omega (arith, mod-pow a w)) refl ∙ bit_at-mod (a / 2) w i (omega arith)
