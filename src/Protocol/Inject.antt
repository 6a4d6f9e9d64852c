-- ===== src/Protocol/Inject.antt =====
-- iris-mpc-cpu/src/protocol/binary.rs: from binary shares of bits to shares of the bits as numbers of
-- 16 bits, by an oblivious transfer between the three parties.
pub mod Element
pub mod Loops
pub mod Correct
use iris_mpc.Prelude.{ℕ, zero, suc, List, [], ◌∷◌, Option, none, some, bit_xor, if◌then◌else◌}
use iris_mpc.Execution.Session.{own_role, next_identity, prev_identity}
use iris_mpc.Execution.Role.{Role}
use iris_mpc.Network.Value.{NetworkValue, vec_ring16}
use iris_mpc.Shares.RingElement.{wrapping_add, wrapping_sub}
use iris_mpc.Shares.Bit
use iris_mpc.Shares.Share.{Share, new}
use iris_mpc.Shares.VecShare.{VecShare}
use iris_mpc.Protocol.Platform.{Platform}
use iris_mpc.Protocol.Prf.{Prf, gen_my, gen_prev, gen_rands}
use iris_mpc.Protocol.Program.{
  Program, ◌>>=◌, ◌>>◌, pure, fail, try, ask, with_prf, send_value, send_values_unchecked,
  receive_value, receive_values,
}

abbrev expect_vec_ring16 : NetworkValue → Option (List ℕ)
expect_vec_ring16 (vec_ring16 val) = some val
expect_vec_ring16 _ = none

-- The assertion on the length of the received vector.
abbrev expect_two : List NetworkValue → Option (NetworkValue × NetworkValue)
expect_two (m0 ∷ m1 ∷ []) = some (m0, m1)
expect_two _ = none

-- A bit as a number of 16 bits.
unfoldable pub from_bit : ℕ → ℕ
unfolding Bit.convert
from_bit b = if Bit.convert b then 1 else 0

-- The helper's choice between two masks.
unfoldable pub chosen : ℕ → ℕ → ℕ → ℕ
unfolding Bit.convert
chosen a w0 w1 = if Bit.convert a then w1 else w0

-- The sender's two messages for a bit, of which the receiver can read one.
unfoldable pub message0 : Share → ℕ → ℕ → ℕ
unfolding from_bit
message0 inp c w0 = bit_xor (wrapping_sub 16 (from_bit (bit_xor inp.a inp.b)) c) w0

unfoldable pub message1 : Share → ℕ → ℕ → ℕ
unfolding from_bit
message1 inp c w1 = bit_xor (wrapping_sub 16 (bit_xor (from_bit (bit_xor inp.a inp.b)) 1) c) w1

-- What the receiver reads.
unfoldable pub unmasked : ℕ → ℕ → ℕ → ℕ → ℕ
unfolding Bit.convert
unmasked b wc m0 m1 = if Bit.convert b then bit_xor wc m1 else bit_xor wc m0

module _ (P : Platform) where
  -- The helper's loop: the masks that it passes on, and its shares, still without the first
  -- components.
  pub helper_loop : VecShare → Prf P → (List ℕ × VecShare) × Prf P
  helper_loop [] prf = (([], []), prf)
  helper_loop (inp ∷ input) prf =
      let (c3, prf1) = gen_prev P 16 prf in
      let (w0, prf2) = gen_prev P 16 prf1 in
      let (w1, prf3) = gen_prev P 16 prf2 in
      let ((wc, shares), prf4) = helper_loop input prf3 in
      ((chosen inp.a w0 w1 ∷ wc, new 0 c3 ∷ shares), prf4)

  -- The receiver's loop, as long as the shortest of its vectors: what it sends on, and its shares.
  pub receiver_loop : VecShare → List ℕ → List ℕ → List ℕ → Prf P → (List ℕ × VecShare) × Prf P
  receiver_loop (inp ∷ input) (wc ∷ wcs) (m0 ∷ m0s) (m1 ∷ m1s) prf =
      let (c2, prf1) = gen_my P 16 prf in
      let x = unmasked inp.b wc m0 m1 in
      let ((xs, shares), prf2) = receiver_loop input wcs m0s m1s prf1 in
      ((x ∷ xs, new c2 x ∷ shares), prf2)
  receiver_loop _ _ _ _ prf = (([], []), prf)

  -- The sender's loop: its two messages, and its shares.
  pub sender_loop : VecShare → Prf P → (List ℕ × List ℕ × VecShare) × Prf P
  sender_loop [] prf = (([], [], []), prf)
  sender_loop (inp ∷ input) prf =
      let ((c3, c2), prf1) = gen_rands P 16 prf in
      let (w0, prf2) = gen_my P 16 prf1 in
      let (w1, prf3) = gen_my P 16 prf2 in
      let c = wrapping_add 16 c3 c2 in
      let ((m0, m1, shares), prf4) = sender_loop input prf3 in
      ((message0 inp c w0 ∷ m0, message1 inp c w1 ∷ m1, new c3 c2 ∷ shares), prf4)

-- The helper's first components, as far as they go.
pub set_components : VecShare → List ℕ → VecShare
set_components [] cs = []
set_components (s ∷ ss) [] = s ∷ ss
set_components (s ∷ ss) (c ∷ cs) = record s { a = c } ∷ set_components ss cs

module _ {P : Platform} {R : Type 0} where
  unfoldable pub bit_inject_ot_2round_helper : VecShare → Program P R VecShare
  bit_inject_ot_2round_helper input = do
    (wc, shares) ← with_prf (helper_loop P input)
    next_id ← ask next_identity
    send_value (vec_ring16 wc) next_id
    reply ← receive_value next_id
    c1 ← try (expect_vec_ring16 reply)
    pure (set_components shares c1)

  unfoldable pub bit_inject_ot_2round_receiver : VecShare → Program P R VecShare
  bit_inject_ot_2round_receiver input = do
    next_id ← ask next_identity
    prev_id ← ask prev_identity
    m0_and_m1 ← receive_values next_id
    (first, second) ← try (expect_two m0_and_m1)
    reply_wc ← receive_value prev_id
    m0 ← try (expect_vec_ring16 first)
    m1 ← try (expect_vec_ring16 second)
    wc ← try (expect_vec_ring16 reply_wc)
    (xors, shares) ← with_prf (receiver_loop P input wc m0 m1)
    send_value (vec_ring16 xors) prev_id
    pure shares

  unfoldable pub bit_inject_ot_2round_sender : VecShare → Program P R VecShare
  bit_inject_ot_2round_sender input = do
    (m0, m1, shares) ← with_prf (sender_loop P input)
    prev_id ← ask prev_identity
    send_values_unchecked (vec_ring16 m0 ∷ vec_ring16 m1 ∷ []) prev_id
    pure shares

  -- The work of each role.
  unfoldable pub inject_as : Role → VecShare → Program P R VecShare
  unfolding bit_inject_ot_2round_helper bit_inject_ot_2round_receiver bit_inject_ot_2round_sender
  inject_as zero input = bit_inject_ot_2round_helper input
  inject_as (suc zero) input = bit_inject_ot_2round_receiver input
  inject_as (suc (suc zero)) input = bit_inject_ot_2round_sender input
  inject_as (suc (suc (suc r))) input = fail

  unfoldable pub bit_inject_ot_2round : VecShare → Program P R VecShare
  unfolding inject_as
  bit_inject_ot_2round input = do role ← ask own_role; inject_as role input
