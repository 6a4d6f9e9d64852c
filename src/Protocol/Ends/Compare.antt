-- ===== src/Protocol/Ends/Compare.antt =====
-- Whole runs of the comparisons.
use iris_mpc.Prelude.{ℕ, ◌*◌, ◌^◌, ◌<◌, Bool, ltb}
use iris_mpc.Id.{Trio}
use iris_mpc.Execution.Role.{Identity}
use iris_mpc.Network.Local.{Config, Reach}
use iris_mpc.Network.Local.Queues.{Channels}
use iris_mpc.Network.Local.Leads.{Holds, idle}
use iris_mpc.Shares.Share.{Share}
use iris_mpc.Shares.Sharing.{IsSharing}
use iris_mpc.Protocol.Platform.{Platform}
use iris_mpc.Protocol.Program.{Session, Program}
use iris_mpc.Protocol.Run.{IsReady}
use iris_mpc.Protocol.Compare.{bound_a, bound_b, compare_threshold_and_open, cross_compare}
use iris_mpc.Protocol.Compare.Correct.{
  AllAre, below_zero, cross_compare-Yields, compare_threshold_and_open-Yields,
}
use iris_mpc.Protocol.Compare.Sign.{below_zero-ltb}
use iris_mpc.Protocol.Ends.{begin, EndsFrom, runs_end}

abbrev pub cross_comparisons :
    {P : Platform} {R : Type 0}
    → Trio Share
    → Trio Share
    → Trio Share
    → Trio Share
    → Trio (Program P R Bool)
cross_comparisons d1 t1 d2 t2 = record {
  p0 = cross_compare d1.p0 t1.p0 d2.p0 t2.p0;
  p1 = cross_compare d1.p1 t1.p1 d2.p1 t2.p1;
  p2 = cross_compare d1.p2 t1.p2 d2.p2 t2.p2;
}

abbrev pub comparisons :
    {P : Platform} {R : Type 0} → Trio Share → Trio Share → Trio (Program P R Bool)
comparisons code mask = record {
  p0 = compare_threshold_and_open (record { code_dot = code.p0; mask_dot = mask.p0 });
  p1 = compare_threshold_and_open (record { code_dot = code.p1; mask_dot = mask.p1 });
  p2 = compare_threshold_and_open (record { code_dot = code.p2; mask_dot = mask.p2 });
}

module _ {P : Platform} (ids : Trio Identity) (s : Trio (Session P)) (n : Channels P.Bytes) where
  -- Three ready parties with shares of numbers `d1`, `t1`, `d2` and `t2` of 32 bits run
  -- `cross_compare` from idle channels. Wherever an order of their steps has taken them, they can go
  -- on until every party has the same answer, which is the highest bit of `d2 * t1 - t2 * d1` with
  -- wrap-around, and no message is left over.
  pub cross_compare_ends :
      (sd1 st1 sd2 st2 : Trio Share) (d1 t1 d2 t2 : ℕ) (e : Config P.Bytes Bool)
      → IsReady ids s
      → IsSharing 32 sd1 d1
      → IsSharing 32 st1 t1
      → IsSharing 32 sd2 d2
      → IsSharing 32 st2 t2
      → Holds ids n idle
      → Reach ids (begin (cross_comparisons sd1 st1 sd2 st2) s n) e
      → EndsFrom ids e (AllAre (below_zero d2 t1 t2 d1))
  cross_compare_ends sd1 st1 sd2 st2 d1 t1 d2 t2 e h h1 h2 h3 h4 quiet =
      let y = cross_compare-Yields Bool ids s sd1 st1 sd2 st2 d1 t1 d2 t2 h h1 h2 h3 h4 in
      runs_end ids s y.after (cross_comparisons sd1 st1 sd2 st2) y.value n _ h.apart y.runs y.good
        quiet

  -- Three ready parties with shares of a code's dot product `c` and of a mask's dot product `m`, of
  -- 32 bits, run `compare_threshold_and_open` from idle channels. Wherever an order of their steps
  -- has taken them, they can go on until every party has the same answer, which is the highest bit
  -- of `m * A - c * B` with wrap-around, and no message is left over.
  pub compare_threshold_and_open_ends :
      (code mask : Trio Share) (c m : ℕ) (e : Config P.Bytes Bool)
      → IsReady ids s
      → IsSharing 32 code c
      → IsSharing 32 mask m
      → Holds ids n idle
      → Reach ids (begin (comparisons code mask) s n) e
      → EndsFrom ids e (AllAre (below_zero m bound_a c bound_b))
  compare_threshold_and_open_ends code mask c m e h hc hm quiet =
      let y = compare_threshold_and_open-Yields Bool ids s code mask c m h hc hm in
      runs_end ids s y.after (comparisons code mask) y.value n _ h.apart y.runs y.good quiet

  -- Three ready parties with shares of dot products `c`, below 32768, of a code and `m`, below
  -- 65536, of a mask run `compare_threshold_and_open` from idle channels. Wherever an order of
  -- their steps has taken them, they can go on until every party has the same answer, which is
  -- whether `m * A` is below `c * B`, and no message is left over.
  pub compare_threshold_and_open-ltb :
      (code mask : Trio Share) (c m : ℕ) (e : Config P.Bytes Bool)
      → IsReady ids s
      → IsSharing 32 code c
      → IsSharing 32 mask m
      → m < 2 ^ 16
      → c < 2 ^ 15
      → Holds ids n idle
      → Reach ids (begin (comparisons code mask) s n) e
      → EndsFrom ids e (AllAre (ltb (m * bound_a) (c * bound_b)))
  compare_threshold_and_open-ltb code mask c m e h hc hm lm lc =
      rw (← below_zero-ltb m c lm lc) (compare_threshold_and_open_ends code mask c m e h hc hm)
