-- ===== src/Protocol/Ends/Pack.antt =====
-- Whole runs of the AND of chunked vectors.
use iris_mpc.Prelude.{ℕ, ◌≡◌, List, map, length, zip_with, bit_and, AllPairs}
use iris_mpc.Id.{Trio, zip_trio}
use iris_mpc.Execution.Role.{Identity}
use iris_mpc.Network.Local.{Config, Reach}
use iris_mpc.Network.Local.Queues.{Channels}
use iris_mpc.Network.Local.Leads.{Holds, idle}
use iris_mpc.Shares.Share.{Share}
use iris_mpc.Shares.VecShare.{VecShare}
use iris_mpc.Shares.Sharing.{IsXorSharing}
use iris_mpc.Protocol.Platform.{Platform}
use iris_mpc.Protocol.Program.{Session}
use iris_mpc.Protocol.Run.{IsReady}
use iris_mpc.Protocol.Pack.{transposed_pack_and}
use iris_mpc.Protocol.Pack.Correct.{chunk_columns, AreXorChunks, transposed_pack_and-Yields}
use iris_mpc.Protocol.Ends.{begin, EndsFrom, runs_end}

module _ {P : Platform} (ids : Trio Identity) (s : Trio (Session P)) (n : Channels P.Bytes) where
  -- Three ready parties with binary shares of 64-bit words `xss` and `yss`, in chunks of equal sizes,
  -- run `transposed_pack_and` from idle channels. Wherever an order of their steps has taken them,
  -- they can go on until their results are binary shares of the ANDs of the words, in such chunks,
  -- and no message is left over.
  pub transposed_pack_and_ends :
      (uss vss : List (List (Trio Share))) (xss yss : List (List ℕ))
      (e : Config P.Bytes (List VecShare))
      → IsReady ids s
      → AllPairs (AllPairs (IsXorSharing 64)) uss xss
      → AllPairs (AllPairs (IsXorSharing 64)) vss yss
      → map length uss ≡ map length vss
      → Holds ids n idle
      → Reach ids
          (begin (zip_trio transposed_pack_and (chunk_columns uss) (chunk_columns vss)) s n)
          e
      → EndsFrom ids e (AreXorChunks 64 (zip_with (zip_with bit_and) xss yss))
  transposed_pack_and_ends uss vss xss yss e h hus hvs sizes quiet =
      let y = transposed_pack_and-Yields (List VecShare) ids s uss vss xss yss h hus hvs sizes in
      runs_end ids s y.after (zip_trio transposed_pack_and (chunk_columns uss) (chunk_columns vss))
        y.value n _ h.apart y.runs y.good quiet
