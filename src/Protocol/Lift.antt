-- ===== src/Protocol/Lift.antt =====
-- iris-mpc-cpu/src/protocol/binary.rs: `lift`, which takes shares of 16 bits to shares of 32 bits.
pub mod Bits
pub mod Trios
pub mod Subtract
pub mod Correct
use iris_mpc.Prelude.{ℕ, List, ◌++◌, map, length}
use iris_mpc.Shares.Share.{Share, new}
use iris_mpc.Shares.VecShare.{VecShare, split_at, sub_assign}
use iris_mpc.Shares.TransposePack.U16.{transpose_pack_u64}
use iris_mpc.Protocol.Platform.{Platform}
use iris_mpc.Protocol.Program.{Program, ◌>>=◌, pure, try, ask}
use iris_mpc.Protocol.Convert.{mul_lift_2k_many}
use iris_mpc.Protocol.Extract.{a2b_rows}
use iris_mpc.Protocol.Adder.{binary_add_3_get_two_carries}
use iris_mpc.Protocol.Inject.{bit_inject_ot_2round}

-- `share.a.0 as u32`, and the same of the other component.
unfoldable pub widen : Share → Share
widen share = new share.a share.b

module _ {P : Platform} {R : Type 0} where
  unfoldable pub lift : VecShare → Program P R VecShare
  unfolding widen
  lift shares = do
    let len = length shares
    let x_a = map widen shares
    x ← try (transpose_pack_u64 shares)
    (x1, x2, x3) ← ask (λ session. a2b_rows session x)
    (b1, b2) ← binary_add_3_get_two_carries x1 x2 x3 len
    b ← bit_inject_ot_2round (b1 ++ b2)
    (b1, b2) ← try (split_at b len)
    pure (sub_assign 32 (sub_assign 32 x_a (mul_lift_2k_many 16 b1)) (mul_lift_2k_many 17 b2))
