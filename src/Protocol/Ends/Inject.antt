-- ===== src/Protocol/Ends/Inject.antt =====
-- Whole runs of the bit injection.
use iris_mpc.Prelude.{ℕ, List, AllPairs}
use iris_mpc.Id.{Trio, map_trio, columns}
use iris_mpc.Execution.Role.{Identity}
use iris_mpc.Network.Local.{Config, Reach}
use iris_mpc.Network.Local.Queues.{Channels}
use iris_mpc.Network.Local.Leads.{Holds, idle}
use iris_mpc.Shares.Share.{Share}
use iris_mpc.Shares.Sharing.{IsXorSharing}
use iris_mpc.Protocol.Platform.{Platform}
use iris_mpc.Protocol.Program.{Session}
use iris_mpc.Protocol.Run.{IsReady}
use iris_mpc.Protocol.Ops.Rep3.{AreShares}
use iris_mpc.Protocol.Inject.{bit_inject_ot_2round}
use iris_mpc.Protocol.Inject.Correct.{bit_inject_ot_2round-Yields}
use iris_mpc.Protocol.Ends.{begin, EndsFrom, runs_end}

module _ {P : Platform} (ids : Trio Identity) (s : Trio (Session P)) (n : Channels P.Bytes) where
  -- Three ready parties with binary shares of the bits `xs` run `bit_inject_ot_2round` from idle
  -- channels. Wherever an order of their steps has taken them, they can go on until their results
  -- are replicated shares, in 16 bits, of the numbers `xs` and no message is left over.
  pub bit_inject_ot_2round_ends :
      (us : List (Trio Share)) (xs : List ℕ) (e : Config P.Bytes (List Share))
      → IsReady ids s
      → AllPairs (IsXorSharing 1) us xs
      → Holds ids n idle
      → Reach ids (begin (map_trio bit_inject_ot_2round (columns us)) s n) e
      → EndsFrom ids e (AreShares 16 xs)
  bit_inject_ot_2round_ends us xs e h hus quiet =
      let y = bit_inject_ot_2round-Yields (List Share) ids s us xs h hus in
      runs_end ids s y.after (map_trio bit_inject_ot_2round (columns us)) y.value n _ h.apart y.runs
        y.good quiet
