-- ===== src/Network/Local.antt =====
-- iris-mpc-cpu/src/network/local.rs: one unbounded channel from each party to each other one.
pub mod Queues
pub mod Footprint
pub mod Confluence
pub mod Leads
pub mod Hosts
use text.Mathlib.Text.{◌==◌ as str_eq}
use iris_mpc.Prelude.{
  ◌≡◌, not, Bool, true, false, List, [], ◌∷◌, ◌++◌, Option, none, some, if◌then◌else◌,
}
use iris_mpc.Id.{PartyId, Trio, at, put}
use iris_mpc.Execution.Role.{Identity}
use iris_mpc.Network.Process.{Process, done, send, receive}
use Queues.{Channels, update}

-- The inner loop of `from_host_ids`: a new channel from `v1` to every other identity, in place of the
-- one that the map may hold already.
abbrev insert_from : {B : Type 0} → Identity → List Identity → Channels B → Channels B
insert_from v1 [] p2p = p2p
insert_from v1 (v2 ∷ rest) p2p =
    insert_from v1 rest (if not (str_eq v1 v2) then update p2p v1 v2 [] else p2p)

-- The outer loop.
abbrev insert_all : {B : Type 0} → List Identity → List Identity → Channels B → Channels B
insert_all identities [] p2p = p2p
insert_all identities (v1 ∷ rest) p2p = insert_all identities rest (insert_from v1 identities p2p)

unfoldable pub from_host_ids : {B : Type 0} → List Identity → Channels B
from_host_ids identities = insert_all identities identities (λ sender receiver. none)

-- `send` fails where there is no channel, and else appends to it.
abbrev send_step :
    {B R : Type 0}
    → Channels B
    → Identity
    → Identity
    → B
    → (Bool → Process B R)
    → Option (List B)
    → Option (Process B R × Channels B)
send_step n owner receiver b k none = some (k false, n)
send_step n owner receiver b k (some q) = some (k true, update n owner receiver (q ++ b ∷ []))

-- `receive` fails where there is no channel, waits while it is empty, and else takes its first value.
abbrev receive_step :
    {B R : Type 0}
    → Channels B
    → Identity
    → Identity
    → (Option B → Process B R)
    → Option (List B)
    → Option (Process B R × Channels B)
receive_step n owner sender k none = some (k none, n)
receive_step n owner sender k (some []) = none
receive_step n owner sender k (some (b ∷ q)) = some (k (some b), update n sender owner q)

-- One step of the party `owner`; `none` if it has ended or waits.
unfoldable pub act :
    {B R : Type 0} → Identity → Process B R → Channels B → Option (Process B R × Channels B)
act owner (done r) n = none
act owner (send receiver b k) n = send_step n owner receiver b k (n owner receiver)
act owner (receive sender k) n = receive_step n owner sender k (n sender owner)

-- The three parties and the channels between them.
pub record Config (B R : Type 0) : Type 0 where
  pub parties : Trio (Process B R)
  pub channels : Channels B

pub data Step {B R : Type 0} (ids : Trio Identity) (c : Config B R) : Config B R → Type 0 where
  moves :
      (i : PartyId) (p : Process B R) (n : Channels B)
      → act (at ids i) (at c.parties i) c.channels ≡ some (p, n)
      → Step ids c (record { parties = put c.parties i p; channels = n })

-- Any number of steps, taken by the parties in any order.
pub data Reach {B R : Type 0} (ids : Trio Identity) : Config B R → Config B R → Type 0 where
  here : {c : Config B R} → Reach ids c c
  step : {c d e : Config B R} → Step ids c d → Reach ids d e → Reach ids c e
