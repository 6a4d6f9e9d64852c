-- ===== src/Protocol/Compare.antt =====
-- iris-mpc-cpu/src/protocol/ops.rs: comparisons of distances.
pub mod Correct
pub mod Sign
pub mod Lifted
use iris_mpc.Prelude.{ℕ, ◌*◌, ◌-◌, ◌/◌, ◌^◌, Bool, [], ◌∷◌}
use iris_mpc.Shares.Bit.{convert}
use iris_mpc.Shares.Share
use iris_mpc.Shares.Share.{Share, DistanceShare}
use iris_mpc.Shares.VecShare.{pop}
use iris_mpc.Protocol.Platform.{Platform}
use iris_mpc.Protocol.Program.{Program, ◌>>=◌, pure, try}
use iris_mpc.Protocol.Convert.{mul_lift_2k}
use iris_mpc.Protocol.Lift.{lift}
use iris_mpc.Protocol.Open.{open_bin}
use iris_mpc.Protocol.Ops.{cross_mul}
use iris_mpc.Protocol.Extract.{single_extract_msb_u32}

-- The threshold ratio is 3/8, so that the source's product in floating point has no rounding.
abbrev pub bound_b : ℕ
bound_b = 2 ^ 16

abbrev pub bound_a : ℕ
bound_a = (8 - 2 * 3) * bound_b / 8

module _ {P : Platform} {R : Type 0} where
  unfoldable pub compare_threshold : Share → Share → Program P R Share
  compare_threshold code_dot mask_dot =
      single_extract_msb_u32
        (Share.sub 32 (Share.mul 32 mask_dot bound_a) (Share.mul 32 code_dot bound_b))

  -- The same for shares of 16 bits.
  unfoldable pub lift_and_compare_threshold : Share → Share → Program P R Share
  lift_and_compare_threshold code_dot mask_dot = do
    let y = mul_lift_2k 16 code_dot
    lifted ← lift (mask_dot ∷ [])
    (rest, x) ← try (pop lifted)
    single_extract_msb_u32 (Share.sub 32 (Share.mul 32 x bound_a) y)

  unfoldable pub compare_threshold_and_open : DistanceShare → Program P R Bool
  unfolding compare_threshold
  compare_threshold_and_open distance = do
    bit ← compare_threshold distance.code_dot distance.mask_dot
    opened ← open_bin bit
    pure (convert opened)

  unfoldable pub cross_compare : Share → Share → Share → Share → Program P R Bool
  cross_compare d1 t1 d2 t2 = do
    diff ← cross_mul d1 t1 d2 t2
    bit ← single_extract_msb_u32 diff
    opened_b ← open_bin bit
    pure (convert opened_b)
