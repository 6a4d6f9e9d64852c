-- ===== src/Protocol/Adder/Errors.antt =====
-- The adder of three numbers without rows.
use iris_mpc.Prelude.{◌≡◌, ◌⊎◌, inl, inr, refl, List, [], Option, none, some}
use iris_mpc.Network.Process.{Process, done}
use iris_mpc.Shares.VecShare.{VecShare, pop}
use iris_mpc.Protocol.Platform.{Platform}
use iris_mpc.Protocol.Program.{Session, ok_or_fail}
use iris_mpc.Protocol.Pack.{transposed_pack_xor_assign}
use iris_mpc.Protocol.Adder.{binary_add_3_get_msb}

fails_anyway :
    {B R A : Type 0} (o : Option A) (f : A → Process B R)
    → ((a : A) → f a ≡ done none)
    → ok_or_fail o f ≡ done none
fails_anyway none f h = refl
fails_anyway (some a) f h = h a

module _ {P : Platform} {R : Type 0} where
  -- When the first, the second or the third number has no rows, `binary_add_3_get_msb` fails, and
  -- the party has sent nothing before.
  pub binary_add_3_get_msb-done :
      (x1 x2 x3 : List VecShare) (s : Session P) (k : VecShare → Session P → Process P.Bytes R)
      → (x1 ≡ []) ⊎ (x2 ≡ []) ⊎ (x3 ≡ [])
      → binary_add_3_get_msb x1 x2 x3 s k ≡ done none
  unfolding binary_add_3_get_msb transposed_pack_xor_assign pop
  binary_add_3_get_msb-done x1 x2 x3 s k (inl e) = rw (e) refl
  binary_add_3_get_msb-done x1 x2 x3 s k (inr (inl e)) =
      rw (e) (fails_anyway (pop (transposed_pack_xor_assign x1 x3)) _ (λ a. refl))
  binary_add_3_get_msb-done x1 x2 x3 s k (inr (inr e)) = rw (e) (
      fails_anyway (pop (transposed_pack_xor_assign x1 [])) _
        λ a. fails_anyway (pop (transposed_pack_xor_assign x2 [])) _ λ b. refl)
