-- ===== src/Network/Local/Hosts.antt =====
-- The channels that a list of hosts makes.
use text.Mathlib.Text.{◌==◌ as str_eq}
use text.Mathlib.TextEquality.{eq_iff}
use mathlib.Core.List.{Memᴰ}
use mathlib.Core.List.Memᴰ.{head, tail}
use iris_mpc.Prelude.{
  ◌≡◌, ◌≢◌, ◌↔◌, refl, inl, inr, Bool-cases, Bool, true, false, ◌&&◌, not, List, [], ◌∷◌, none,
  some, if◌then◌else◌, arith,
}
use iris_mpc.Id.{PartyId, id0, id1, id2, Trio, at}
use iris_mpc.Execution.Role.{Identity}
use iris_mpc.Network.Local.{insert_from, insert_all, from_host_ids}
use iris_mpc.Network.Local.Queues.{Channels, update}
use iris_mpc.Network.Local.Confluence.{Distinct}
use iris_mpc.Network.Local.Leads.{Holds, idle}

abbrev is_host : Identity → List Identity → Bool
is_host i [] = false
is_host i (j ∷ hosts) = if str_eq i j then true else is_host i hosts

is_host-Memᴰ : (i : Identity) (hosts : List Identity) → is_host i hosts ≡ true → Memᴰ i hosts
is_host-Memᴰ i [] h = absurd (ground (arith, h))
is_host-Memᴰ i (j ∷ hosts) h = elim (Bool-cases (str_eq i j)) [
  | inl e ↦ head (ground (arith, e, eq_iff i j))
  | inr e ↦ tail (is_host-Memᴰ i hosts (ground (arith, e, h)))
]

Memᴰ-is_host : {i : Identity} {hosts : List Identity} → Memᴰ i hosts → is_host i hosts ≡ true
Memᴰ-is_host {i} (head {x} e) = ground (arith, e, eq_iff i x)
Memᴰ-is_host (tail m) = ground (arith, Memᴰ-is_host m)

module _ {B : Type 0} (s r : Identity) where
  -- The inner loop makes the channels from `v`, and leaves all others.
  insert_from_lem :
      (v : Identity) (rest : List Identity) (p2p : Channels B)
      → insert_from v rest p2p s r
        ≡ (if str_eq s v && is_host r rest && not (str_eq s r) then some [] else p2p s r)
  insert_from_lem v [] p2p = ground arith
  insert_from_lem v (w ∷ rest) p2p = ground (
    arith,
    insert_from_lem v rest (if not (str_eq v w) then update p2p v w [] else p2p),
    eq_iff v s,
    eq_iff s v,
    eq_iff v w,
    eq_iff w r,
    eq_iff r w,
    eq_iff s r,
  )

  insert_all_lem :
      (identities rest : List Identity) (p2p : Channels B)
      → insert_all identities rest p2p s r
        ≡ (if is_host s rest && is_host r identities && not (str_eq s r) then some [] else p2p s r)
  insert_all_lem identities [] p2p = ground arith
  insert_all_lem identities (v ∷ rest) p2p = ground (
    arith,
    insert_all_lem identities rest (insert_from v identities p2p),
    insert_from_lem v identities p2p,
  )

-- For any list of identities, also with repetitions, the map holds a queue from `s` to `r` exactly
-- when both are in the list and are different, and this queue is empty.
pub from_host_ids_lem :
    {B : Type 0} (identities : List Identity) (s r : Identity) (q : List B)
    → (from_host_ids identities s r ≡ some q)
      ↔ (Memᴰ s identities × Memᴰ r identities × (s ≢ r) × (q ≡ []))
unfolding from_host_ids
from_host_ids_lem {B} identities s r q =
    let none_yet : Channels B = λ sender receiver. none in
    let made = insert_all_lem s r identities identities none_yet in
    (
      λ e. (
        is_host-Memᴰ s identities (ground (arith, made, e)),
        is_host-Memᴰ r identities (ground (arith, made, e)),
        λ same. ground (arith, made, e, same, eq_iff s r),
        ground (arith, made, e),
      ),
      λ (hs, hr, apart, empty).
          ground (arith, made, Memᴰ-is_host hs, Memᴰ-is_host hr, eq_iff s r, apart, empty),
    )

-- Three different hosts have all the channels that they need.
pub from_host_ids-Holds :
    {B : Type 0} (ids : Trio Identity)
    → Distinct ids
    → Holds {B = B} ids (from_host_ids (ids.p0 ∷ ids.p1 ∷ ids.p2 ∷ [])) idle
from_host_ids-Holds ids apart i j differ =
    (from_host_ids_lem (ids.p0 ∷ ids.p1 ∷ ids.p2 ∷ []) (at ids i) (at ids j) []).1
      (member i, member j, apart i j differ, refl)
  where
    member : (i : PartyId) → Memᴰ (at ids i) (ids.p0 ∷ ids.p1 ∷ ids.p2 ∷ [])
    member id0 = head refl
    member id1 = tail (head refl)
    member id2 = tail (tail (head refl))
