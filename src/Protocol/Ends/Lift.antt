-- ===== src/Protocol/Ends/Lift.antt =====
-- Whole runs of the liftings from 16 to 32 bits.
use iris_mpc.Prelude.{ℕ, List, tabulate}
use iris_mpc.Prelude.Bits.{to_nat}
use iris_mpc.Id.{Trio}
use iris_mpc.Execution.Role.{Identity}
use iris_mpc.Network.Local.{Config, Reach}
use iris_mpc.Network.Local.Queues.{Channels}
use iris_mpc.Network.Local.Leads.{Holds, idle}
use iris_mpc.Shares.Share.{Share}
use iris_mpc.Shares.VecShare.{VecShare}
use iris_mpc.Shares.Sharing.{IsSharing, IsXorSharing}
use iris_mpc.Protocol.Platform.{Platform}
use iris_mpc.Protocol.Program.{Session, Program}
use iris_mpc.Protocol.Run.{IsReady}
use iris_mpc.Protocol.Ops.Rep3.{AreShares}
use iris_mpc.Protocol.Extract.Correct.{vectors}
use iris_mpc.Protocol.Lift.Correct.{lifts, lift-Yields}
use iris_mpc.Protocol.SignedLift.{batch_signed_lift_vec}
use iris_mpc.Protocol.SignedLift.Correct.{sign_extend, batch_signed_lift-Yields}
use iris_mpc.Protocol.Compare.{bound_a, bound_b, lift_and_compare_threshold}
use iris_mpc.Protocol.Compare.Correct.{below_zero}
use iris_mpc.Protocol.Compare.Lifted.{lift_and_compare_threshold-Yields}
use iris_mpc.Protocol.Ends.{begin, EndsFrom, runs_end}

abbrev pub lifted_comparisons :
    {P : Platform} {R : Type 0} → Trio Share → Trio Share → Trio (Program P R Share)
lifted_comparisons code mask = record {
  p0 = lift_and_compare_threshold code.p0 mask.p0;
  p1 = lift_and_compare_threshold code.p1 mask.p1;
  p2 = lift_and_compare_threshold code.p2 mask.p2;
}

abbrev pub signed_vec_lifts :
    {P : Platform} {R : Type 0} → ℕ → (ℕ → Trio Share) → Trio (Program P R (List Share))
signed_vec_lifts k t =
    let v = vectors k t in
    record {
      p0 = batch_signed_lift_vec v.p0;
      p1 = batch_signed_lift_vec v.p1;
      p2 = batch_signed_lift_vec v.p2;
    }

module _ {P : Platform} (ids : Trio Identity) (s : Trio (Session P)) (n : Channels P.Bytes) where
  -- Three ready parties with shares `t` of numbers `x` of 16 bits run `lift` on the first `k` of
  -- them from idle channels. Wherever an order of their steps has taken them, they can go on until
  -- their results are replicated shares, in 32 bits, of the same `k` numbers and no message is left
  -- over.
  pub lift_ends :
      (k : ℕ) (t : ℕ → Trio Share) (x : ℕ → ℕ) (e : Config P.Bytes VecShare)
      → IsReady ids s
      → ((i : ℕ) → IsSharing 16 (t i) (x i))
      → Holds ids n idle
      → Reach ids (begin (lifts k t) s n) e
      → EndsFrom ids e (AreShares 32 (tabulate k x))
  lift_ends k t x e h hs quiet =
      let y = lift-Yields VecShare ids s k t x h hs in
      runs_end ids s y.after (lifts k t) y.value n _ h.apart y.runs y.good quiet

  -- Three ready parties with shares `t` of numbers `x` of 16 bits run `batch_signed_lift_vec` on the
  -- first `k` of them from idle channels. Wherever an order of their steps has taken them, they can
  -- go on until their results are replicated shares, in 32 bits, of the `k` numbers with their signs
  -- in two's complement extended, and no message is left over.
  pub batch_signed_lift_vec_ends :
      (k : ℕ) (t : ℕ → Trio Share) (x : ℕ → ℕ) (e : Config P.Bytes (List Share))
      → IsReady ids s
      → ((i : ℕ) → IsSharing 16 (t i) (x i))
      → Holds ids n idle
      → Reach ids (begin (signed_vec_lifts k t) s n) e
      → EndsFrom ids e (AreShares 32 (tabulate k (λ i. sign_extend (x i))))
  unfolding batch_signed_lift_vec
  batch_signed_lift_vec_ends k t x e h hs quiet =
      let y = batch_signed_lift-Yields (List Share) ids s k t x h hs in
      runs_end ids s y.after (signed_vec_lifts k t) y.value n _ h.apart y.runs y.good quiet

  -- Three ready parties with shares, of 16 bits, of a code's dot product `c` and of a mask's dot
  -- product `m` run `lift_and_compare_threshold` from idle channels. Wherever an order of their
  -- steps has taken them, they can go on until their results are binary shares of one bit, the
  -- highest bit of `m * A - c * B` with wrap-around in 32 bits, and no message is left over.
  pub lift_and_compare_threshold_ends :
      (code mask : Trio Share) (c m : ℕ) (e : Config P.Bytes Share)
      → IsReady ids s
      → IsSharing 16 code c
      → IsSharing 16 mask m
      → Holds ids n idle
      → Reach ids (begin (lifted_comparisons code mask) s n) e
      → EndsFrom ids e (λ v. IsXorSharing 1 v (to_nat (below_zero m bound_a c bound_b)))
  lift_and_compare_threshold_ends code mask c m e h hc hm quiet =
      let y = lift_and_compare_threshold-Yields Share ids s code mask c m h hc hm in
      runs_end ids s y.after (lifted_comparisons code mask) y.value n _ h.apart y.runs y.good quiet
