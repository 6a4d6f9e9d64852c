-- ===== src/Protocol/Local.antt =====
-- The sessions of a local run are sessions in which the protocols work.
use text.Mathlib.TextEquality.{eq_iff}
use mathlib.Core.Bool.{false≢true}
use iris_mpc.Prelude.{◌≡◌, refl, some, arith}
use iris_mpc.Id.{PartyId, id0, id1, id2, next_id, prev_id, to_usize, Trio, at}
use iris_mpc.Execution.Role.{Identity}
use iris_mpc.Execution.Session.{own_role, identity, next_identity, prev_identity}
use iris_mpc.Execution.Local.{generate_local_identities, boot_sessions}
use iris_mpc.Network.Local.Confluence.{Distinct}
use iris_mpc.Protocol.Platform.{Platform}
use iris_mpc.Protocol.Prf.{Prf}
use iris_mpc.Protocol.Program.{Session}
use iris_mpc.Protocol.Run.{IsParties}

abbrev pub sessions : {P : Platform} → Trio Identity → Trio (Prf P) → Trio (Session P)
sessions ids q = record {
  p0 = record { boot_session = (boot_sessions ids).p0; setup = q.p0 };
  p1 = record { boot_session = (boot_sessions ids).p1; setup = q.p1 };
  p2 = record { boot_session = (boot_sessions ids).p2; setup = q.p2 };
}

module _ {P : Platform} (ids : Trio Identity) (q : Trio (Prf P)) (apart : Distinct ids) where
  role_lem : (i : PartyId) → own_role (at (sessions ids q) i).boot_session ≡ some (to_usize i)
  unfolding own_role boot_sessions to_usize
  role_lem id0 = ground (
    arith,
    eq_iff ids.p0 ids.p0,
    eq_iff ids.p1 ids.p0,
    eq_iff ids.p2 ids.p0,
    apart id1 id0,
    apart id2 id0,
  )
  role_lem id1 = ground (
    arith,
    eq_iff ids.p0 ids.p1,
    eq_iff ids.p1 ids.p1,
    eq_iff ids.p2 ids.p1,
    apart id0 id1,
    apart id2 id1,
  )
  role_lem id2 = ground (
    arith,
    eq_iff ids.p0 ids.p2,
    eq_iff ids.p1 ids.p2,
    eq_iff ids.p2 ids.p2,
    apart id0 id2,
    apart id1 id2,
  )

  others_lem :
      (i j : PartyId) → identity (at (sessions ids q) i).boot_session (to_usize j) ≡ some (at ids j)
  unfolding identity boot_sessions to_usize
  others_lem id0 = elim [ id0 ↦ refl | id1 ↦ refl | id2 ↦ refl ]
  others_lem id1 = elim [ id0 ↦ refl | id1 ↦ refl | id2 ↦ refl ]
  others_lem id2 = elim [ id0 ↦ refl | id1 ↦ refl | id2 ↦ refl ]

  next_lem :
      (i : PartyId) → next_identity (at (sessions ids q) i).boot_session ≡ some (at ids (next_id i))
  unfolding next_identity boot_sessions next_id
  next_lem id0 = ground (
    arith,
    eq_iff ids.p0 ids.p0,
    eq_iff ids.p1 ids.p0,
    eq_iff ids.p2 ids.p0,
    apart id1 id0,
    apart id2 id0,
  )
  next_lem id1 = ground (
    arith,
    eq_iff ids.p0 ids.p1,
    eq_iff ids.p1 ids.p1,
    eq_iff ids.p2 ids.p1,
    apart id0 id1,
    apart id2 id1,
  )
  next_lem id2 = ground (
    arith,
    eq_iff ids.p0 ids.p2,
    eq_iff ids.p1 ids.p2,
    eq_iff ids.p2 ids.p2,
    apart id0 id2,
    apart id1 id2,
  )

  prev_lem :
      (i : PartyId) → prev_identity (at (sessions ids q) i).boot_session ≡ some (at ids (prev_id i))
  unfolding prev_identity boot_sessions prev_id
  prev_lem id0 = ground (
    arith,
    eq_iff ids.p0 ids.p0,
    eq_iff ids.p1 ids.p0,
    eq_iff ids.p2 ids.p0,
    apart id1 id0,
    apart id2 id0,
  )
  prev_lem id1 = ground (
    arith,
    eq_iff ids.p0 ids.p1,
    eq_iff ids.p1 ids.p1,
    eq_iff ids.p2 ids.p1,
    apart id0 id1,
    apart id2 id1,
  )
  prev_lem id2 = ground (
    arith,
    eq_iff ids.p0 ids.p2,
    eq_iff ids.p1 ids.p2,
    eq_iff ids.p2 ids.p2,
    apart id0 id2,
    apart id1 id2,
  )

  -- In a local run of three different identities every party finds its role, the next party, the
  -- previous party and every other party's identity, whatever generators it has.
  pub sessions-IsParties : IsParties ids (sessions ids q)
  sessions-IsParties = record {
    apart = apart;
    role = role_lem;
    others = others_lem;
    next = next_lem;
    prev = prev_lem;
  }

-- The identities of the local tests are different.
pub generate_local_identities-Distinct : Distinct generate_local_identities
unfolding generate_local_identities
generate_local_identities-Distinct id0 = elim [
  | id0 ↦ λ h. absurd (h refl)
  | id1 ↦ λ _ e. false≢true ((eq_iff "alice" "bob").1 e)
  | id2 ↦ λ _ e. false≢true ((eq_iff "alice" "charlie").1 e)
]
generate_local_identities-Distinct id1 = elim [
  | id0 ↦ λ _ e. false≢true ((eq_iff "bob" "alice").1 e)
  | id1 ↦ λ h. absurd (h refl)
  | id2 ↦ λ _ e. false≢true ((eq_iff "bob" "charlie").1 e)
]
generate_local_identities-Distinct id2 = elim [
  | id0 ↦ λ _ e. false≢true ((eq_iff "charlie" "alice").1 e)
  | id1 ↦ λ _ e. false≢true ((eq_iff "charlie" "bob").1 e)
  | id2 ↦ λ h. absurd (h refl)
]
