-- ===== src/Protocol/Ops.antt =====
-- iris-mpc-cpu/src/protocol/ops.rs: operations on shares of dot products.
pub mod CrossMul
pub mod Rep3
pub mod Setup
use iris_mpc.Prelude.{ℕ, ◌*◌, ◌^◌, List, [], ◌∷◌, Option, none, some}
use iris_mpc.Execution.Role
use iris_mpc.Execution.Session.{
  BootSession, own_role, identity, next_identity, prev_identity, ◌>>=◌ as bind,
}
use iris_mpc.Network.Value.{NetworkValue, prf_key, ring_element32, vec_ring16}
use iris_mpc.Shares.RingElement.{wrapping_add, wrapping_sub}
use iris_mpc.Shares.Share.{Share, new, mul_local}
use iris_mpc.Shares.VecShare.{VecShare, from_ab}
use iris_mpc.Protocol.Platform.{Platform}
use iris_mpc.Protocol.Prf.{Prf, gen_zero_share}
use iris_mpc.Protocol.Prf
use iris_mpc.Protocol.Program.{
  Program, ◌>>=◌, ◌>>◌, pure, try, ask, with_prf, send_value, receive_value,
}

-- `session.identity(&session.own_role()?.next(3))`, and of the previous role.
unfoldable pub identity_after : BootSession → Option Role.Identity
unfolding Role.next
identity_after s = bind (own_role s) (λ r. identity s (Role.next r 3))

unfoldable pub identity_before : BootSession → Option Role.Identity
unfolding Role.prev
identity_before s = bind (own_role s) (λ r. identity s (Role.prev r 3))

abbrev expect_prf_key : NetworkValue → Option (List ℕ)
expect_prf_key (prf_key seed) = some seed
expect_prf_key _ = none

abbrev expect_ring_element32 : NetworkValue → Option ℕ
expect_ring_element32 (ring_element32 element) = some element
expect_ring_element32 _ = none

abbrev expect_vec_ring16 : NetworkValue → Option (List ℕ)
expect_vec_ring16 (vec_ring16 message) = some message
expect_vec_ring16 _ = none

-- The component of `cross_mul`, under a fresh share of zero.
abbrev cross_component : (P : Platform) → Share → Share → Share → Share → Prf P → ℕ × Prf P
cross_component P d1 t1 d2 t2 prf =
    let (mask, prf') = gen_zero_share P 32 prf in
    (wrapping_sub 32 (wrapping_add 32 mask (mul_local 32 d2 t1)) (mul_local 32 t2 d1), prf')

-- Each item plus a fresh share of zero.
pub masked_items : (P : Platform) → List ℕ → Prf P → List ℕ × Prf P
masked_items P [] prf = ([], prf)
masked_items P (x ∷ xs) prf =
    let (mask, prf') = gen_zero_share P 16 prf in
    let (rest, prf'') = masked_items P xs prf' in (wrapping_add 16 mask x ∷ rest, prf'')

module _ {P : Platform} {R : Type 0} where
  -- The session's own generators are not read: the seeds go round, and make the new ones.
  pub setup_replicated_prf : List ℕ → Program P R (Prf P)
  setup_replicated_prf my_seed = do
    next_role ← ask identity_after
    send_value (prf_key my_seed) next_role
    prev_role ← ask identity_before
    reply ← receive_value prev_role
    other_seed ← try (expect_prf_key reply)
    pure (Prf.new P my_seed other_seed)

  -- D2 * T1 - T2 * D1
  pub cross_mul : Share → Share → Share → Share → Program P R Share
  cross_mul d1 t1 d2 t2 = do
    res_a ← with_prf (cross_component P d1 t1 d2 t2)
    next_role ← ask identity_after
    prev_role ← ask identity_before
    send_value (ring_element32 res_a) next_role
    reply ← receive_value prev_role
    res_b ← try (expect_ring_element32 reply)
    pure (new res_a res_b)

  pub galois_ring_to_rep3 : List ℕ → Program P R VecShare
  galois_ring_to_rep3 items = do
    next_party ← ask next_identity
    masked_items ← with_prf (masked_items P items)
    send_value (vec_ring16 masked_items) next_party
    prev_party ← ask prev_identity
    reply ← receive_value prev_party
    shares_b ← try (expect_vec_ring16 reply)
    pure (from_ab masked_items shares_b)
