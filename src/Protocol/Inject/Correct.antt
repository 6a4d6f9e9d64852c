-- ===== src/Protocol/Inject/Correct.antt =====
-- The bit injection turns binary shares of bits into shares of the bits as numbers.
use iris_mpc.Prelude.{ℕ, ◌≡◌, refl, List, [], ◌∷◌, map, AllPairs, arith}
use iris_mpc.Id.{PartyId, id0, id1, id2, next_id, prev_id, to_usize, Trio, map_trio, columns}
use iris_mpc.Execution.Role.{Identity}
use iris_mpc.Network.Value.{NetworkValue, vec_ring16}
use iris_mpc.Network.Process.{Process, send, receive}
use iris_mpc.Network.Local.Confluence.{Distinct}
use iris_mpc.Network.Local.Leads.{
  Leads, idle, sent, lead_end, lead_send, lead_send_on, lead_receive,
}
use iris_mpc.Shares.Share.{Share}
use iris_mpc.Shares.Sharing.{IsXorSharing}
use iris_mpc.Shares.Sharing.Vectors.{replicate}
use iris_mpc.Protocol.Platform.{Platform}
use iris_mpc.Protocol.Program.{Session, ok_or_fail, from_network, vec_from_network}
use iris_mpc.Protocol.Run.{IsReady, Yields, setups, with_setups, with_setups-IsReady}
use iris_mpc.Protocol.Ops.Rep3.{AreShares, replicate-all}
use iris_mpc.Protocol.Inject.{
  bit_inject_ot_2round, expect_two, expect_vec_ring16, receiver_loop, set_components,
}
use iris_mpc.Protocol.Inject.Loops.{transfer, pending, set_components_lem}

module _ (P : Platform) {R : Type 0} (ids : Trio Identity) (apart : Distinct ids) where
  open ids use {p0 as i0, p1 as i1, p2 as i2}

  -- The messages of the transfer: the helper's and the sender's to the receiver, and the receiver's
  -- to the helper.
  transfer_messages :
      (wc x : NetworkValue) (ms : List NetworkValue) (p1 p2 : Process P.Bytes R)
      (k0 : NetworkValue → Process P.Bytes R) (k1 : List NetworkValue → Process P.Bytes R)
      (k2 : NetworkValue → Process P.Bytes R)
      → k1 ms ≡ receive i0 (λ b. ok_or_fail (from_network P b) k2)
      → k2 wc ≡ send i0 (P.serialize x) (sent p1)
      → Leads ids
          (record {
            p0 =
                send i1
                  (P.serialize wc)
                  (sent (receive i1 (λ b. ok_or_fail (from_network P b) k0)));
            p1 = receive i2 (λ b. ok_or_fail (vec_from_network P b) k1);
            p2 = send i1 (P.serialize_vec ms) (λ _. p2);
          })
          idle
          (record { p0 = k0 x; p1 = p1; p2 = p2 })
          idle
  transfer_messages wc x ms p1 p2 k0 k1 k2 waits sends =
      lead_send ids apart _ _ id0 id1 _ _ (ground arith) refl (
        lead_send_on ids apart _ _ id2 id1 _ _ (ground arith) refl (
          lead_receive ids apart _ _ id1 id2 (P.serialize_vec ms) [] _ (ground arith) refl refl (
            rw (P.deserialize_vec-serialize_vec ms, waits)
              (lead_receive ids apart _ _ id1 id0 (P.serialize wc) [] _ (ground arith) refl refl (
                rw (P.deserialize-serialize wc, sends)
                  (lead_send ids apart _ _ id1 id0 _ _ (ground arith) refl (
                    lead_receive ids apart _ _ id0 id1 (P.serialize x) [] _ (ground arith) refl refl
                      (rw (P.deserialize-serialize x)
                        (lead_end ids apart _ _ _ (λ i j. ground arith))))))))))

module _ {P : Platform} (R : Type 0) (ids : Trio Identity) (s : Trio (Session P)) where
  -- Three ready parties with binary shares of the bits `xs` end `bit_inject_ot_2round` without an
  -- error, with shares of the numbers `xs`, and are ready again.
  pub bit_inject_ot_2round-Yields :
      (us : List (Trio Share)) (xs : List ℕ)
      → IsReady ids s
      → AllPairs (IsXorSharing 1) us xs
      → Yields {R = R} ids s (map_trio bit_inject_ot_2round (columns us)) (AreShares 16 xs)
  unfolding bit_inject_ot_2round next_id prev_id to_usize
  bit_inject_ot_2round-Yields us xs h hus =
      let w = transfer P (setups s) h.synced hus in
      let s' = with_setups s w.after in
      let input = (columns us).p1 in
      let answer : NetworkValue × NetworkValue
          → NetworkValue
          → (PartyId → List Share → Session P → Process P.Bytes R)
          → Process P.Bytes R =
        λ ms v k. ok_or_fail (expect_vec_ring16 ms.0) λ m0.
          ok_or_fail (expect_vec_ring16 ms.1) λ m1. ok_or_fail (expect_vec_ring16 v) λ wc.
            let ((xors, shares), prf) = receiver_loop P input wc m0 m1 s.p1.setup in
            send ids.p0 (P.serialize (vec_ring16 xors))
              (sent (k id1 shares (record { boot_session = s.p1.boot_session; setup = prf }))) in
      let shares = columns (map replicate w.words) in
      record {
        value = shares;
        after = s';
        ready = with_setups-IsReady ids s w.after h w.synced;
        good = (map replicate w.words, refl, replicate-all 16 w.components);
        runs = λ k.
            rw
              (
                h.role id0,
                h.role id1,
                h.role id2,
                w.helper,
                w.sender,
                h.next id0,
                h.next id1,
                h.prev id1,
                h.prev id2,
              )
              (rw (set_components_lem w.words) at (
                transfer_messages P ids h.apart (vec_ring16 w.wc)
                  (vec_ring16 (map (λ z. z.p0) w.words)) (vec_ring16 w.m0 ∷ vec_ring16 w.m1 ∷ [])
                  (k id1 shares.p1 s'.p1) (k id2 shares.p2 s'.p2)
                  (λ v.
                    ok_or_fail (expect_vec_ring16 v)
                      (λ c. k id0 (set_components (map pending w.words) c) s'.p0))
                  (λ ms. ok_or_fail (expect_two ms) (λ pair.
                    receive ids.p0 (λ b. ok_or_fail (from_network P b) (λ v. answer pair v k))))
                  (λ v. answer (vec_ring16 w.m0, vec_ring16 w.m1) v k) refl (rw w.receiver)));
      }
