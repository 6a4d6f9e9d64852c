-- ===== src/Protocol/Program.antt =====
-- The asynchronous functions of the protocols: they read and change the session of their party, may
-- fail, and send and receive on the network.
use iris_mpc.Prelude.{List, Option, none, some}
use iris_mpc.Execution.Role.{Identity}
use iris_mpc.Execution.Session.{BootSession}
use iris_mpc.Network.Value.{NetworkValue}
use iris_mpc.Network.Process.{Process, done, send, receive}
use iris_mpc.Network.Local.Leads.{sent}
use iris_mpc.Protocol.Platform.{Platform}
use iris_mpc.Protocol.Prf.{Prf}

-- `Session` of execution/session.rs.
pub record Session (P : Platform) : Type 0 where
  pub boot_session : BootSession
  pub setup : Prf P

-- A program with a value of type `A`, before the process that it is part of: `k` is what follows.
abbrev pub Program : Platform → Type 0 → Type 0 → Type 0
Program P R A = Session P → (A → Session P → Process P.Bytes R) → Process P.Bytes R

-- An error ends the process.
abbrev pub ok_or_fail : {A B R : Type 0} → Option A → (A → Process B R) → Process B R
ok_or_fail none k = done none
ok_or_fail (some a) k = k a

module _ (P : Platform) where
  -- `NetworkValue::from_network` of what was received; a failed receive is its error too.
  abbrev pub from_network : Option P.Bytes → Option NetworkValue
  from_network none = none
  from_network (some bytes) = P.deserialize bytes

  abbrev pub vec_from_network : Option P.Bytes → Option (List NetworkValue)
  vec_from_network none = none
  vec_from_network (some bytes) = P.deserialize_vec bytes

module _ {P : Platform} {R : Type 0} where
  infixl 5 ◌>>=◌ ◌>>◌
  abbrev pub ◌>>=◌ : {A B : Type 0} → Program P R A → (A → Program P R B) → Program P R B
  ◌>>=◌ m f s k = m s (λ a s'. f a s' k)

  abbrev pub ◌>>◌ : {B : Type 0} → Program P R (Unit {0}) → Program P R B → Program P R B
  ◌>>◌ m f s k = m s (λ _ s'. f s' k)

  abbrev pub pure : {A : Type 0} → A → Program P R A
  pure a s k = k a s

  -- `return Err(…)`
  abbrev pub fail : {A : Type 0} → Program P R A
  fail s k = done none

  -- The operator `?` on a result.
  abbrev pub try : {A : Type 0} → Option A → Program P R A
  try r s k = ok_or_fail r (λ a. k a s)

  -- A question to the session's assignment of roles.
  abbrev pub ask : {A : Type 0} → (BootSession → Option A) → Program P R A
  ask f s k = ok_or_fail (f s.boot_session) (λ a. k a s)

  -- A computation with the session's generators.
  abbrev pub with_prf : {A : Type 0} → (Prf P → A × Prf P) → Program P R A
  with_prf f s k = let (a, prf) = f s.setup in k a (record s { setup = prf })

  -- `network.send(bytes, receiver, sid).await?`
  abbrev pub send_bytes : P.Bytes → Identity → Program P R (Unit {0})
  send_bytes bytes receiver s k = send receiver bytes (sent (k tt s))

  -- `network.send(value.to_network(), receiver, sid).await?`
  abbrev pub send_value : NetworkValue → Identity → Program P R (Unit {0})
  send_value v receiver = send_bytes (P.serialize v) receiver

  -- `network.receive(sender, sid).await`, then the value or its error.
  abbrev pub receive_value : Identity → Program P R NetworkValue
  receive_value sender s k =
      receive sender (λ bytes. ok_or_fail (from_network P bytes) (λ v. k v s))

  abbrev pub receive_values : Identity → Program P R (List NetworkValue)
  receive_values sender s k =
      receive sender (λ bytes. ok_or_fail (vec_from_network P bytes) (λ v. k v s))

  -- `let _ = network.send(NetworkValue::vec_to_network(values), …)`, whose error is dropped.
  abbrev pub send_values_unchecked : List NetworkValue → Identity → Program P R (Unit {0})
  send_values_unchecked values receiver s k = send receiver (P.serialize_vec values) (λ _. k tt s)
