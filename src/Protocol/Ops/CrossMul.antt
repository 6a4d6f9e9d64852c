-- ===== src/Protocol/Ops/CrossMul.antt =====
-- `cross_mul` computes the difference of two products of shared numbers.
use iris_mpc.Prelude.{ℕ, ◌≡◌, some}
use iris_mpc.Id.{PartyId, id0, id1, id2, next_id, prev_id, to_usize, Trio, at, map_trio, zip_trio}
use iris_mpc.Execution.Role.{Identity}
use iris_mpc.Network.Value.{ring_element32}
use iris_mpc.Shares.RingElement.{wrapping_add, wrapping_sub, wrapping_mul}
use iris_mpc.Shares.Share.{Share, new, mul_local}
use iris_mpc.Shares.Sharing.{IsSharing}
use iris_mpc.Shares.Sharing.Additive.{
  sub-IsAdditive, masks, masked-IsAdditive, mul_local-IsAdditive, replicate-IsSharing,
}
use iris_mpc.Shares.Sharing.Vectors.{replicate}
use iris_mpc.Protocol.Platform.{Platform}
use iris_mpc.Protocol.Prf.Zero.{drawn, drawn_after, drawn_after-IsSynced, gen_zero_share-drawn}
use iris_mpc.Protocol.Program.{Session, ok_or_fail}
use iris_mpc.Protocol.Run.{
  IsParties, IsReady, Yields, exchange, setups, with_setups, with_setups-IsReady,
}
use iris_mpc.Protocol.Ops.{cross_mul, expect_ring_element32, identity_after, identity_before}

module _ {P : Platform} (ids : Trio Identity) (s : Trio (Session P)) where
  pub identity_after_lem :
      IsParties ids s
      → (i : PartyId) → identity_after (at s i).boot_session ≡ some (at ids (next_id i))
  unfolding identity_after next_id to_usize
  identity_after_lem h id0 = rw (h.role id0) (h.others id0 id1)
  identity_after_lem h id1 = rw (h.role id1) (h.others id1 id2)
  identity_after_lem h id2 = rw (h.role id2) (h.others id2 id0)

  pub identity_before_lem :
      IsParties ids s
      → (i : PartyId) → identity_before (at s i).boot_session ≡ some (at ids (prev_id i))
  unfolding identity_before prev_id to_usize
  identity_before_lem h id0 = rw (h.role id0) (h.others id0 id2)
  identity_before_lem h id1 = rw (h.role id1) (h.others id1 id0)
  identity_before_lem h id2 = rw (h.role id2) (h.others id2 id1)

module _ {P : Platform} (R : Type 0) (ids : Trio Identity) (s : Trio (Session P)) where
  -- Three ready parties that hold shares of four numbers `d1`, `t1`, `d2` and `t2` of 32 bits end
  -- `cross_mul` without an error, with shares of `d2 * t1 - t2 * d1`, and are ready again.
  pub cross_mul-Yields :
      (sd1 st1 sd2 st2 : Trio Share) {d1 t1 d2 t2 : ℕ}
      → IsReady ids s
      → IsSharing 32 sd1 d1
      → IsSharing 32 st1 t1
      → IsSharing 32 sd2 d2
      → IsSharing 32 st2 t2
      → Yields {R = R} ids s
          (record {
            p0 = cross_mul sd1.p0 st1.p0 sd2.p0 st2.p0;
            p1 = cross_mul sd1.p1 st1.p1 sd2.p1 st2.p1;
            p2 = cross_mul sd1.p2 st1.p2 sd2.p2 st2.p2;
          })
          (λ t. IsSharing 32 t (wrapping_sub 32 (wrapping_mul 32 d2 t1) (wrapping_mul 32 t2 d1)))
  unfolding cross_mul next_id prev_id
  cross_mul-Yields sd1 st1 sd2 st2 {d1} {t1} {d2} {t2} h h1 h2 h3 h4 =
      let prf = setups s in
      let r = drawn P 32 prf in
      let q = drawn_after P 32 prf in
      let s' = with_setups s q in
      let (e0, e1, e2) = gen_zero_share-drawn P 32 prf h.synced in
      let masked =
        masked-IsAdditive 32 r (zip_trio (mul_local 32) sd2 st1) (P.gen-lt 32 _) (P.gen-lt 32 _)
          (P.gen-lt 32 _) (mul_local-IsAdditive 32 h3 h2) in
      let component = sub-IsAdditive 32 masked (mul_local-IsAdditive 32 h4 h1) in
      let z =
        zip_trio (wrapping_sub 32)
          (zip_trio (wrapping_add 32) (masks 32 r) (zip_trio (mul_local 32) sd2 st1))
          (zip_trio (mul_local 32) st2 sd1) in
      record {
        value = replicate z;
        after = s';
        ready = with_setups-IsReady ids s q h (drawn_after-IsSynced P 32 prf h.synced);
        good = replicate-IsSharing 32 component;
        runs = λ k.
            rw
              (
                e0,
                e1,
                e2,
                identity_after_lem ids s h.parties id0,
                identity_after_lem ids s h.parties id1,
                identity_after_lem ids s h.parties id2,
                identity_before_lem ids s h.parties id0,
                identity_before_lem ids s h.parties id1,
                identity_before_lem ids s h.parties id2,
              )
              (exchange P ids h.apart (map_trio ring_element32 z)
                λ i v. ok_or_fail (expect_ring_element32 v) (λ c. k i (new (at z i) c) (at s' i)));
      }
