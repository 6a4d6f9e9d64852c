-- ===== src/Tests/Lift.antt =====
-- The liftings between three local sessions.
use iris_mpc.Prelude.{ℕ, List, tabulate}
use iris_mpc.Prelude.Bits.{to_nat}
use iris_mpc.Id.{Trio}
use iris_mpc.Network.Local.{here}
use iris_mpc.Shares.Share.{Share}
use iris_mpc.Shares.VecShare.{VecShare}
use iris_mpc.Shares.Sharing.{IsXorSharing}
use iris_mpc.Protocol.Ops.Rep3.{AreShares}
use iris_mpc.Protocol.Lift.Correct.{lifts}
use iris_mpc.Protocol.SignedLift.Correct.{sign_extend}
use iris_mpc.Protocol.Compare.{bound_a, bound_b}
use iris_mpc.Protocol.Compare.Correct.{below_zero}
use iris_mpc.Protocol.Ends.{begin, EndsFrom}
use iris_mpc.Protocol.Ends.Lift.{
  lifted_comparisons, signed_vec_lifts, lift_ends, batch_signed_lift_vec_ends,
  lift_and_compare_threshold_ends,
}
use iris_mpc.Tests.Setting.{
  toy, names, local, channels, channels-idle, local-IsReady, word_shares, word_shares-IsSharing16,
}

abbrev eighteens : ℕ → Trio Share
eighteens i = word_shares

lift_ends_example :
    EndsFrom {B = toy.Bytes} {A = VecShare} names
      (begin (lifts 70 eighteens) local channels)
      (AreShares 32 (tabulate 70 (λ i. 18)))
lift_ends_example =
    lift_ends names local channels 70 eighteens (λ i. 18)
      (begin (lifts 70 eighteens) local channels) local-IsReady (λ i. word_shares-IsSharing16)
      channels-idle here

batch_signed_lift_vec_ends_example :
    EndsFrom {B = toy.Bytes} {A = List Share} names
      (begin (signed_vec_lifts 3 eighteens) local channels)
      (AreShares 32 (tabulate 3 (λ i. sign_extend 18)))
batch_signed_lift_vec_ends_example =
    batch_signed_lift_vec_ends names local channels 3 eighteens (λ i. 18)
      (begin (signed_vec_lifts 3 eighteens) local channels) local-IsReady
      (λ i. word_shares-IsSharing16) channels-idle here

lift_and_compare_threshold_ends_example :
    EndsFrom {B = toy.Bytes} {A = Share} names
      (begin (lifted_comparisons word_shares word_shares) local channels)
      (λ v. IsXorSharing 1 v (to_nat (below_zero 18 bound_a 18 bound_b)))
lift_and_compare_threshold_ends_example =
    lift_and_compare_threshold_ends names local channels word_shares word_shares 18 18
      (begin (lifted_comparisons word_shares word_shares) local channels) local-IsReady
      word_shares-IsSharing16 word_shares-IsSharing16 channels-idle here
