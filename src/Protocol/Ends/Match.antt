-- ===== src/Protocol/Ends/Match.antt =====
-- Whole runs of the comparison of two shared irises.
use iris_mpc.Prelude.{Bool}
use iris_mpc.Id.{Trio}
use iris_mpc.Execution.Role.{Identity}
use iris_mpc.Network.Local.{Config, Reach}
use iris_mpc.Network.Local.Queues.{Channels}
use iris_mpc.Network.Local.Leads.{Holds, idle}
use iris_mpc.IrisCode.{is_close}
use iris_mpc.GaloisEngine.Shares.{Encoded, shares_of}
use iris_mpc.Protocol.Platform.{Platform}
use iris_mpc.Protocol.Program.{Session}
use iris_mpc.Protocol.Run.{IsReady}
use iris_mpc.Protocol.Compare.Correct.{AllAre}
use iris_mpc.Protocol.Distance.Plain.{HasPairs, is_similar-is_close}
use iris_mpc.Protocol.Distance.Correct.{matches, matches-Yields}
use iris_mpc.Protocol.Ends.{begin, EndsFrom, runs_end}

module _ {P : Platform} (ids : Trio Identity) (s : Trio (Session P)) (n : Channels P.Bytes) where
  -- Three ready parties have shares of two irises `x` and `y`, made with any random elements, and the
  -- bits of both masks come in pairs. From idle channels each party prepares its share of `y` and runs
  -- `galois_ring_is_match` with its share of `x`. Wherever an order of their steps has taken them,
  -- they can go on until every party has the same answer, which is whether the irises in the clear
  -- are close by `is_close`, and no message is left over.
  pub galois_ring_is_match_ends :
      (x y : Encoded) (e : Config P.Bytes Bool)
      → HasPairs x.iris.mask
      → HasPairs y.iris.mask
      → IsReady ids s
      → Holds ids n idle
      → Reach ids (begin (matches (shares_of x) (shares_of y)) s n) e
      → EndsFrom ids e (AllAre (is_close x.iris y.iris))
  galois_ring_is_match_ends x y e hx hy h quiet =
      let r = matches-Yields Bool ids s x y h in
      rw (← is_similar-is_close x.iris y.iris hx hy) (
        runs_end ids s r.after (matches (shares_of x) (shares_of y)) r.value n _ h.apart r.runs
          r.good quiet)
