-- ===== src/Protocol/Open.antt =====
-- iris-mpc-cpu/src/protocol/binary.rs: opening a shared bit.
pub mod Correct
use iris_mpc.Prelude.{ℕ, Option, none, some, bit_xor}
use iris_mpc.Execution.Session.{next_identity, prev_identity}
use iris_mpc.Network.Value.{NetworkValue, ring_element_bit}
use iris_mpc.Shares.Share.{Share}
use iris_mpc.Protocol.Platform.{Platform}
use iris_mpc.Protocol.Program.{Program, ◌>>=◌, ◌>>◌, pure, try, ask, send_value, receive_value}

abbrev expect_bit : NetworkValue → Option ℕ
expect_bit (ring_element_bit message) = some message
expect_bit _ = none

module _ {P : Platform} {R : Type 0} where
  pub open_bin : Share → Program P R ℕ
  open_bin share = do
    next_party ← ask next_identity
    send_value (ring_element_bit share.b) next_party
    prev_party ← ask prev_identity
    reply ← receive_value prev_party
    c ← try (expect_bit reply)
    pure (bit_xor (bit_xor share.a share.b) c)
