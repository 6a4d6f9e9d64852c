-- ===== src/Protocol/Open/Correct.antt =====
-- Opening a shared bit gives every party the bit.
use iris_mpc.Prelude.{ℕ, bit_xor}
use iris_mpc.Id.{id0, id1, id2, next_id, prev_id, Trio, at, map_trio}
use iris_mpc.Execution.Role.{Identity}
use iris_mpc.Network.Value.{ring_element_bit}
use iris_mpc.Shares.Share.{Share}
use iris_mpc.Shares.Sharing.{IsXorSharing}
use iris_mpc.Shares.Sharing.Xor.{opened}
use iris_mpc.Protocol.Platform.{Platform}
use iris_mpc.Protocol.Program.{Session, ok_or_fail}
use iris_mpc.Protocol.Run.{IsParties, Runs, exchange}
use iris_mpc.Protocol.Open.{open_bin, expect_bit}

module _ {P : Platform} {R : Type 0} (ids : Trio Identity) (s : Trio (Session P)) where
  -- For three parties that hold binary shares of a bit, the opening ends at every party with that
  -- bit; no session changes, and no message is left over.
  pub open_bin-Runs :
      (t : Trio Share) (x : ℕ)
      → IsParties ids s
      → IsXorSharing 1 t x
      → Runs {R = R} ids (map_trio open_bin t) s (record { p0 = x; p1 = x; p2 = x }) s
  unfolding open_bin next_id prev_id
  open_bin-Runs t x h hs k =
      let (e0, e1, e2) = opened 1 t x hs in
      rw (h.next id0, h.next id1, h.next id2, h.prev id0, h.prev id1, h.prev id2)
        (rw (e0, e1, e2) at
          (exchange P ids h.apart (map_trio (λ u. ring_element_bit u.b) t) λ i v.
            ok_or_fail (expect_bit v)
              (λ c. k i (bit_xor (bit_xor (at t i).a (at t i).b) c) (at s i))))
