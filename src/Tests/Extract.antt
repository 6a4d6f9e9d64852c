-- ===== src/Tests/Extract.antt =====
-- The most significant bits and the comparisons between three local sessions.
use iris_mpc.Prelude.{ℕ, ◌*◌, Bool, ltb, arith}
use iris_mpc.Id.{Trio}
use iris_mpc.Network.Local.{here}
use iris_mpc.Shares.Share.{Share}
use iris_mpc.Shares.VecShare.{VecShare}
use iris_mpc.Protocol.Extract.Correct.{extractions}
use iris_mpc.Protocol.Ends.{begin, EndsFrom}
use iris_mpc.Protocol.Ends.Extract.{AreMsbs, extract_msb_u32_ends}
use iris_mpc.Protocol.Compare.{bound_a, bound_b}
use iris_mpc.Protocol.Compare.Correct.{AllAre, below_zero}
use iris_mpc.Protocol.Ends.Compare.{
  cross_comparisons, comparisons, cross_compare_ends, compare_threshold_and_open_ends,
  compare_threshold_and_open-ltb,
}
use iris_mpc.Tests.Setting.{
  toy, names, local, channels, channels-idle, local-IsReady, word_shares, word_shares-IsSharing,
}

abbrev eighteens : ℕ → Trio Share
eighteens i = word_shares

extract_msb_u32_ends_example :
    EndsFrom {B = toy.Bytes} {A = VecShare} names
      (begin (extractions 70 eighteens) local channels)
      (AreMsbs 70 (λ i. 18))
extract_msb_u32_ends_example =
    extract_msb_u32_ends names local channels 70 eighteens (λ i. 18)
      (begin (extractions 70 eighteens) local channels) local-IsReady (λ i. word_shares-IsSharing)
      channels-idle here

cross_compare_ends_example :
    EndsFrom {B = toy.Bytes} {A = Bool} names
      (begin (cross_comparisons word_shares word_shares word_shares word_shares) local channels)
      (AllAre (below_zero 18 18 18 18))
cross_compare_ends_example =
    cross_compare_ends names local channels word_shares word_shares word_shares word_shares 18 18 18
      18 (begin (cross_comparisons word_shares word_shares word_shares word_shares) local channels)
      local-IsReady word_shares-IsSharing word_shares-IsSharing word_shares-IsSharing
      word_shares-IsSharing channels-idle here

compare_threshold_and_open_ends_example :
    EndsFrom {B = toy.Bytes} {A = Bool} names
      (begin (comparisons word_shares word_shares) local channels)
      (AllAre (below_zero 18 bound_a 18 bound_b))
compare_threshold_and_open_ends_example =
    compare_threshold_and_open_ends names local channels word_shares word_shares 18 18
      (begin (comparisons word_shares word_shares) local channels) local-IsReady
      word_shares-IsSharing word_shares-IsSharing channels-idle here

compare_threshold_and_open-ltb_example :
    EndsFrom {B = toy.Bytes} {A = Bool} names
      (begin (comparisons word_shares word_shares) local channels)
      (AllAre (ltb (18 * bound_a) (18 * bound_b)))
compare_threshold_and_open-ltb_example =
    compare_threshold_and_open-ltb names local channels word_shares word_shares 18 18
      (begin (comparisons word_shares word_shares) local channels) local-IsReady
      word_shares-IsSharing word_shares-IsSharing (omega arith) (omega arith) channels-idle here
