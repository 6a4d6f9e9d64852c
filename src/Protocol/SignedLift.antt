-- ===== src/Protocol/SignedLift.antt =====
-- iris-mpc-cpu/src/protocol/ops.rs: `batch_signed_lift`, which keeps the sign of numbers of 16 bits.
pub mod Correct
use iris_mpc.Prelude.{ℕ, ◌-◌, ◌^◌, List, [], ◌∷◌, Option, some}
use iris_mpc.Execution.Session.{BootSession, own_role, ◌>>=◌ as bind}
use iris_mpc.Shares.Share.{Share, add_assign_const_role}
use iris_mpc.Shares.VecShare.{VecShare}
use iris_mpc.Protocol.Platform.{Platform}
use iris_mpc.Protocol.Program.{Program, ◌>>=◌, ask}
use iris_mpc.Protocol.Lift.{lift}

-- The loops over the shares, of `k` bits, which add the constant `other` by the party's role.
unfoldable pub add_to_all : ℕ → ℕ → BootSession → VecShare → Option VecShare
add_to_all k other session [] = some []
add_to_all k other session (v ∷ vs) = bind (own_role session) λ role.
    bind (add_assign_const_role k v other role)
      λ v'. bind (add_to_all k other session vs) λ rest. some (v' ∷ rest)

module _ {P : Platform} {R : Type 0} where
  unfoldable pub batch_signed_lift : VecShare → Program P R VecShare
  batch_signed_lift pre_lift = do
    shifted ← ask (λ session. add_to_all 16 (2 ^ 15) session pre_lift)
    lifted_values ← lift shifted
    ask (λ session. add_to_all 32 (2 ^ 32 - 2 ^ 15) session lifted_values)

  -- A `VecShare` and the `Vec` inside it are the same list.
  unfoldable pub batch_signed_lift_vec : List Share → Program P R (List Share)
  unfolding batch_signed_lift
  batch_signed_lift_vec pre_lift = batch_signed_lift pre_lift
