-- ===== src/Protocol/Convert.antt =====
-- iris-mpc-cpu/src/protocol/binary.rs: what a party does alone on the way between additive and binary
-- shares, and from 16 to 32 bits.
pub mod Parts
pub mod Lift
use iris_mpc.Prelude.{ℕ, zero, suc, ◌+◌, ◌*◌, ◌/◌, ◌%◌, ◌^◌, Option, none, some, map}
use iris_mpc.Execution.Role.{Role}
use iris_mpc.Execution.Session.{BootSession, own_role, ◌>>=◌}
use iris_mpc.Shares.Share.{Share, new, zero_share}
use iris_mpc.Shares.VecShare.{VecShare}

unfoldable pub transposed_padded_len : ℕ → ℕ
transposed_padded_len len = (len + 63) / 64 * 64

-- The three parts of a party's share, by its role; `none` is the error for other roles.
unfoldable pub parts_as : Share → Role → Option (Share × Share × Share)
unfolding zero_share
parts_as x zero = some (record zero_share { a = x.a }, zero_share, record zero_share { b = x.b })
parts_as x (suc zero) =
    some (record zero_share { b = x.b }, record zero_share { a = x.a }, zero_share)
parts_as x (suc (suc zero)) =
    some (zero_share, record zero_share { b = x.b }, record zero_share { a = x.a })
parts_as x (suc (suc (suc r))) = none

unfoldable pub a2b_pre : BootSession → Share → Option (Share × Share × Share)
unfolding parts_as
a2b_pre session x = own_role session >>= λ role. parts_as x role

-- `u32::from(val) << K`, whose distance is below 32.
unfoldable pub mul_lift_2k : ℕ → Share → Share
mul_lift_2k shift val = new ((val.a * 2 ^ shift) % 2 ^ 32) ((val.b * 2 ^ shift) % 2 ^ 32)

unfoldable pub mul_lift_2k_many : ℕ → VecShare → VecShare
unfolding mul_lift_2k
mul_lift_2k_many shift = map (mul_lift_2k shift)
