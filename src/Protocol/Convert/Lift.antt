-- ===== src/Protocol/Convert/Lift.antt =====
-- Multiplication by a power of two while going from 16 to 32 bits.
use native.Mathlib.Nat.{pow-suc}
use iris_mpc.Prelude.{ℕ, zero, suc, ◌+◌, ◌*◌, ◌-◌, ◌/◌, ◌%◌, ◌^◌, ◌≤◌, ◌≡◌, ◌∙◌, refl, arith}
use iris_mpc.Prelude.Modular.{mod_three, mod-eq_of_multiples}
use iris_mpc.Id.{Trio, map_trio}
use iris_mpc.Shares.Share.{Share, new}
use iris_mpc.Shares.Sharing.{IsSharing}
use iris_mpc.Shares.Sharing.Linear.{mod-lt-pow}
use iris_mpc.Protocol.Convert.{mul_lift_2k}

distribute : (a b c d : ℕ) → (a + b + c) * d ≡ a * d + b * d + c * d
distribute a b c d = grind arith

power_lem : (n : ℕ) → 2 ^ (n + 16) ≡ 2 ^ n * 65536
power_lem zero = refl
power_lem (suc n) =
    let next : suc n + 16 ≡ suc (n + 16) = omega arith in
    rw (next, pow-suc 2 (n + 16), pow-suc 2 n, power_lem n) (omega arith)

split_lem :
    (x q b : ℕ) → (x + q * 65536) * (b * 65536) + 0 * 2 ^ 32 ≡ x * (b * 65536) + q * b * 2 ^ 32
split_lem x q b = grind arith

-- What the wrap-around of 16 bits leaves out is a multiple of the wrap-around of 32 bits.
lifted : (x q b : ℕ) → ((x + q * 65536) * (b * 65536)) % 2 ^ 32 ≡ (x * (b * 65536)) % 2 ^ 32
lifted x q b = mod-eq_of_multiples (2 ^ 32) 0 (q * b) _ _ (split_lem x q b)

lifted_sum :
    (sum x shift : ℕ)
    → 16 ≤ shift
    → sum % 2 ^ 16 ≡ x
    → (sum * 2 ^ shift) % 2 ^ 32 ≡ (x * 2 ^ shift) % 2 ^ 32
lifted_sum sum x shift h e =
    let split : x + sum / 65536 * 65536 ≡ sum = omega arith in
    let distance : shift - 16 + 16 ≡ shift = omega arith in
    rw (split, ← power_lem (shift - 16), distance) at (lifted x (sum / 65536) (2 ^ (shift - 16)))

-- For a distance of at least 16, the lifted shares of a number of 16 bits are shares of the number
-- times the power of two, in 32 bits.
pub mul_lift_2k-IsSharing :
    {t : Trio Share} {x : ℕ} (shift : ℕ)
    → 16 ≤ shift
    → IsSharing 16 t x
    → IsSharing 32 (map_trio (mul_lift_2k shift) t) ((x * 2 ^ shift) % 2 ^ 32)
unfolding mul_lift_2k new
mul_lift_2k-IsSharing {t} {x} shift h hs = record {
  replicated = record {
    b0 = rw hs.b0;
    b1 = rw hs.b1;
    b2 = rw hs.b2;
    lt0 = mod-lt-pow 32 _;
    lt1 = mod-lt-pow 32 _;
    lt2 = mod-lt-pow 32 _;
  };
  value =
      mod_three (2 ^ 32) (t.p0.a * 2 ^ shift) (t.p1.a * 2 ^ shift) (t.p2.a * 2 ^ shift)
      ∙ rw (← distribute t.p0.a t.p1.a t.p2.a (2 ^ shift))
          (lifted_sum (t.p0.a + t.p1.a + t.p2.a) x shift h hs.value);
}
