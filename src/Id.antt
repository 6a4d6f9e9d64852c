-- ===== src/Id.antt =====
-- iris-mpc-common/src/id.rs: the three party identifiers.
use iris_mpc.Prelude.{List, map, ℕ, zero, suc, ◌≡◌, ◌≢◌, ◌↔◌, Option, none, some, arith}

pub data PartyId : Type 0 where
  id0 id1 id2 : PartyId

unfoldable pub next_id : PartyId → PartyId
next_id id0 = id1
next_id id1 = id2
next_id id2 = id0

unfoldable pub prev_id : PartyId → PartyId
prev_id id0 = id2
prev_id id1 = id0
prev_id id2 = id1

-- `none` is the `PartyIDError`.
pub try_from : ℕ → Option PartyId
try_from zero = some id0
try_from (suc zero) = some id1
try_from (suc (suc zero)) = some id2
try_from (suc (suc (suc n))) = none

unfoldable pub to_usize : PartyId → ℕ
to_usize id0 = 0
to_usize id1 = 1
to_usize id2 = 2

-- One value for each of the three parties.
pub record Trio {ℓ} (A : Type ℓ) : Type ℓ where
  pub p0 : A
  pub p1 : A
  pub p2 : A

abbrev pub at {ℓ} : {A : Type ℓ} → Trio A → PartyId → A
at t id0 = t.p0
at t id1 = t.p1
at t id2 = t.p2

abbrev pub map_trio {ℓ κ} : {A : Type ℓ} {B : Type κ} → (A → B) → Trio A → Trio B
map_trio f t = record { p0 = f t.p0; p1 = f t.p1; p2 = f t.p2 }

abbrev pub zip_trio {ℓ κ μ} :
    {A : Type ℓ} {B : Type κ} {C : Type μ} → (A → B → C) → Trio A → Trio B → Trio C
zip_trio f s t = record { p0 = f s.p0 t.p0; p1 = f s.p1 t.p1; p2 = f s.p2 t.p2 }

-- The three parties' vectors of a vector of trios.
abbrev pub columns {ℓ} : {A : Type ℓ} → List (Trio A) → Trio (List A)
columns ts = record { p0 = map (λ t. t.p0) ts; p1 = map (λ t. t.p1) ts; p2 = map (λ t. t.p2) ts }

abbrev pub put {ℓ} : {A : Type ℓ} → Trio A → PartyId → A → Trio A
put t id0 a = record t { p0 = a }
put t id1 a = record t { p1 = a }
put t id2 a = record t { p2 = a }

pub PartyId-discrete : Discrete PartyId
PartyId-discrete = hlevel

module _ {ℓ} {A : Type ℓ} where
  pub at-put_other : (t : Trio A) (i j : PartyId) (a : A) → i ≢ j → at (put t i a) j ≡ at t j
  at-put_other t i j a h = ground arith

  pub put_comm :
      (t : Trio A) (i j : PartyId) (a b : A) → i ≢ j → put (put t i a) j b ≡ put (put t j b) i a
  put_comm t i j a b h = ground arith

-- The parties form a ring of three: `prev_id` undoes `next_id`, `next_id` undoes `prev_id`, three
-- steps lead home, and neither the next nor the previous party is the party itself or each other.
next_id-ring :
    (i : PartyId)
    → (prev_id (next_id i) ≡ i)
      × (next_id (prev_id i) ≡ i)
      × (next_id (next_id (next_id i)) ≡ i)
      × (next_id i ≢ i)
      × (next_id i ≢ prev_id i)
unfolding next_id prev_id
next_id-ring i = ground arith

-- The conversion from a number accepts exactly the numbers of the parties, and gives back the party
-- whose number it is.
try_from-to_usize_iff : (n : ℕ) (i : PartyId) → (try_from n ≡ some i) ↔ (n ≡ to_usize i)
unfolding try_from to_usize
try_from-to_usize_iff zero i = ground arith
try_from-to_usize_iff (suc zero) i = ground arith
try_from-to_usize_iff (suc (suc zero)) i = ground arith
try_from-to_usize_iff (suc (suc (suc n))) i = ground arith
