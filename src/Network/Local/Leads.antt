-- ===== src/Network/Local/Leads.antt =====
-- Runs of the three parties, with what waits in each channel named by the parties at its ends.
use text.Mathlib.Text.{◌==◌ as str_eq}
use text.Mathlib.TextPositions.{eq_refl}
use text.Mathlib.TextEquality.{eq_iff}
use iris_mpc.Prelude.{
  ◌≡◌, ◌≢◌, Bool, true, false, List, [], ◌∷◌, ◌++◌, Option, none, some, arith, ◌&&◌, if◌then◌else◌,
}
use iris_mpc.Id.{PartyId, id0, id1, id2, Trio, at, put, PartyId-discrete}
use iris_mpc.Execution.Role.{Identity}
use iris_mpc.Network.Process.{Process, done, send, receive}
use iris_mpc.Network.Local.Queues.{Channels, update}
use iris_mpc.Network.Local.{moves, Reach, here, step, act}
use iris_mpc.Network.Local.Confluence.{Distinct}

-- What waits between two parties.
abbrev pub Wires : Type 0 → Type 0
Wires B = PartyId → PartyId → List B

abbrev pub idle : {B : Type 0} → Wires B
idle i j = []

abbrev same : PartyId → PartyId → Bool
same id0 id0 = true
same id1 id1 = true
same id2 id2 = true
same _ _ = false

abbrev pub set : {B : Type 0} → Wires B → PartyId → PartyId → List B → Wires B
set f i j q i' j' = if same i i' && same j j' then q else f i' j'

-- Every channel between two parties is there, and holds what the wires say.
abbrev pub Holds : {B : Type 0} → Trio Identity → Channels B → Wires B → Type 0
Holds ids n f = (i j : PartyId) → i ≢ j → n (at ids i) (at ids j) ≡ some (f i j)

-- What follows a send: its error ends the process.
abbrev pub sent : {B R : Type 0} → Process B R → Bool → Process B R
sent p true = p
sent p false = done none

-- From the parties `ps` over wires `f` a run leads to the parties `qs` over wires `g`.
abbrev pub Leads :
    {B R : Type 0}
    → Trio Identity
    → Trio (Process B R)
    → Wires B
    → Trio (Process B R)
    → Wires B
    → Type 0
Leads {B} ids ps f qs g =
    (n : Channels B)
    → Holds ids n f
    → (m : Channels B) × Holds ids m g
      × Reach ids (record { parties = ps; channels = n }) (record { parties = qs; channels = m })

same-eq_ids :
    (ids : Trio Identity) → Distinct ids → (i j : PartyId) → str_eq (at ids i) (at ids j) ≡ same i j
same-eq_ids ids apart i j = elim (PartyId-discrete i j) [
  | yes e ↦ rw (e, eq_refl (at ids j)) (ground arith)
  | no differ ↦ ground (arith, eq_iff (at ids i) (at ids j), apart i j differ)
]

module _ {B : Type 0} (ids : Trio Identity) (apart : Distinct ids) (n : Channels B)
    (f : Wires B) where
  Holds-update :
      (i j : PartyId) (q : List B)
      → Holds ids n f
      → Holds ids (update n (at ids i) (at ids j) q) (set f i j q)
  Holds-update i j q h i' j' differ =
      rw (same-eq_ids ids apart i i', same-eq_ids ids apart j j', h i' j' differ) (ground arith)

module _ {B R : Type 0} (ids : Trio Identity) (apart : Distinct ids) where
  pub lead_end :
      (ps : Trio (Process B R)) (f g : Wires B)
      → ((i j : PartyId) → f i j ≡ g i j)
      → Leads ids ps f ps g
  lead_end ps f g e n h = (n, λ i j differ. rw (← e i j) (h i j differ), here)

  pub lead_send_on :
      (ps : Trio (Process B R)) (f : Wires B) (i j : PartyId) (b : B) (k : Bool → Process B R)
      {qs : Trio (Process B R)} {g : Wires B}
      → i ≢ j
      → at ps i ≡ send (at ids j) b k
      → Leads ids (put ps i (k true)) (set f i j (f i j ++ b ∷ [])) qs g
      → Leads ids ps f qs g
  unfolding act
  lead_send_on ps f i j b k differ here_i rest n h =
      let (m, h', r) =
        rest (update n (at ids i) (at ids j) (f i j ++ b ∷ []))
          (Holds-update ids apart n f i j (f i j ++ b ∷ []) h) in
      (
        m,
        h',
        step
            (moves i (k true) (update n (at ids i) (at ids j) (f i j ++ b ∷ []))
              (rw (here_i, act, h i j differ)))
            r,
      )

  pub lead_send :
      (ps : Trio (Process B R)) (f : Wires B) (i j : PartyId) (b : B) (p : Process B R)
      {qs : Trio (Process B R)} {g : Wires B}
      → i ≢ j
      → at ps i ≡ send (at ids j) b (sent p)
      → Leads ids (put ps i p) (set f i j (f i j ++ b ∷ [])) qs g
      → Leads ids ps f qs g
  lead_send ps f i j b p = lead_send_on ps f i j b (sent p)

  pub lead_receive :
      (ps : Trio (Process B R)) (f : Wires B) (i j : PartyId) (b : B) (q : List B)
      (k : Option B → Process B R) {qs : Trio (Process B R)} {g : Wires B}
      → j ≢ i
      → at ps i ≡ receive (at ids j) k
      → f j i ≡ b ∷ q
      → Leads ids (put ps i (k (some b))) (set f j i q) qs g
      → Leads ids ps f qs g
  unfolding act
  lead_receive ps f i j b q k differ here_i first rest n h =
      let (m, h', r) =
        rest (update n (at ids j) (at ids i) q) (Holds-update ids apart n f j i q h) in
      (
        m,
        h',
        step
            (moves i (k (some b)) (update n (at ids j) (at ids i) q)
              (rw (here_i, act, h j i differ, first)))
            r,
      )
