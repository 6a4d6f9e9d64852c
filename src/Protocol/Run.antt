-- ===== src/Protocol/Run.antt =====
-- Programs of the three parties, run together from idle channels to idle channels.
use iris_mpc.Prelude.{◌≡◌, refl, [], some, arith}
use iris_mpc.Id.{PartyId, id0, id1, id2, next_id, prev_id, to_usize, Trio, at}
use iris_mpc.Execution.Role.{Identity}
use iris_mpc.Execution.Session.{own_role, identity, next_identity, prev_identity}
use iris_mpc.Network.Value.{NetworkValue}
use iris_mpc.Network.Process.{Process, send, receive}
use iris_mpc.Network.Local.{Config, Reach, here, step}
use iris_mpc.Network.Local.Confluence.{Distinct}
use iris_mpc.Network.Local.Leads.{idle, Leads, sent, lead_end, lead_send, lead_receive}
use iris_mpc.Protocol.Platform.{Platform}
use iris_mpc.Protocol.Prf.{Prf}
use iris_mpc.Protocol.Prf.Zero.{IsSynced}
use iris_mpc.Protocol.Program.{Session, Program, ok_or_fail, from_network}

-- The sessions of three parties with the identities `ids`, in the order of their roles.
pub record IsParties {P : Platform} (ids : Trio Identity) (s : Trio (Session P)) : Type 0 where
  pub apart : Distinct ids
  pub role : (i : PartyId) → own_role (at s i).boot_session ≡ some (to_usize i)
  pub others : (i j : PartyId) → identity (at s i).boot_session (to_usize j) ≡ some (at ids j)
  pub next : (i : PartyId) → next_identity (at s i).boot_session ≡ some (at ids (next_id i))
  pub prev : (i : PartyId) → prev_identity (at s i).boot_session ≡ some (at ids (prev_id i))

-- The parties' generators.
abbrev pub setups : {P : Platform} → Trio (Session P) → Trio (Prf P)
setups s = record { p0 = s.p0.setup; p1 = s.p1.setup; p2 = s.p2.setup }

-- The sessions with other generators.
abbrev pub with_setups : {P : Platform} → Trio (Session P) → Trio (Prf P) → Trio (Session P)
with_setups s q = record {
  p0 = record { boot_session = s.p0.boot_session; setup = q.p0 };
  p1 = record { boot_session = s.p1.boot_session; setup = q.p1 };
  p2 = record { boot_session = s.p2.boot_session; setup = q.p2 };
}

-- Sessions in which the protocols can start: the parties know each other, and their generators are
-- in step.
pub record IsReady {P : Platform} (ids : Trio Identity) (s : Trio (Session P)) : Type 0 where
  pub parties : IsParties ids s
  pub open parties use *
  pub synced : IsSynced (setups s)

pub with_setups-IsReady :
    {P : Platform} (ids : Trio Identity) (s : Trio (Session P)) (q : Trio (Prf P))
    → IsReady ids s
    → IsSynced q
    → IsReady ids (with_setups s q)
with_setups-IsReady ids s q h g = record {
  parties = record {
    apart = h.apart;
    role = elim [ id0 ↦ h.role id0 | id1 ↦ h.role id1 | id2 ↦ h.role id2 ];
    others = elim [ id0 ↦ h.others id0 | id1 ↦ h.others id1 | id2 ↦ h.others id2 ];
    next = elim [ id0 ↦ h.next id0 | id1 ↦ h.next id1 | id2 ↦ h.next id2 ];
    prev = elim [ id0 ↦ h.prev id0 | id1 ↦ h.prev id1 | id2 ↦ h.prev id2 ];
  };
  synced = g;
}

-- What the parties have before them, when party `i` goes on by `k i`.
abbrev pub start :
    {P : Platform} {R A : Type 0}
    → Trio (Program P R A)
    → Trio (Session P)
    → (PartyId → A → Session P → Process P.Bytes R)
    → Trio (Process P.Bytes R)
start m s k = record { p0 = m.p0 s.p0 (k id0); p1 = m.p1 s.p1 (k id1); p2 = m.p2 s.p2 (k id2) }

abbrev pub finish :
    {P : Platform} {R A : Type 0}
    → Trio A
    → Trio (Session P)
    → (PartyId → A → Session P → Process P.Bytes R)
    → Trio (Process P.Bytes R)
finish a s k = record { p0 = k id0 a.p0 s.p0; p1 = k id1 a.p1 s.p1; p2 = k id2 a.p2 s.p2 }

-- The programs `m` end from the sessions `s`, with the values `a` and the sessions `s'`, whatever
-- follows them.
abbrev pub Runs :
    {P : Platform} {R A : Type 0}
    → Trio Identity
    → Trio (Program P R A)
    → Trio (Session P)
    → Trio A
    → Trio (Session P)
    → Type 0
Runs {P} {R} {A} ids m s a s' =
    (k : PartyId → A → Session P → Process P.Bytes R)
    → Leads ids (start m s k) idle (finish a s' k) idle

-- From the sessions `s` the programs `m` end without an error, with values of which `Good` holds and
-- in sessions that are ready again.
pub record Yields {P : Platform} {R A : Type 0} (ids : Trio Identity) (s : Trio (Session P))
    (m : Trio (Program P R A)) (Good : Trio A → Type 0) : Type 0 where
  pub value : Trio A
  pub after : Trio (Session P)
  pub ready : IsReady ids after
  pub good : Good value
  pub runs : Runs ids m s value after

pub Reach-trans :
    {B R : Type 0} {ids : Trio Identity} {c d e : Config B R}
    → Reach ids c d
    → Reach ids d e
    → Reach ids c e
Reach-trans here q = q
Reach-trans (step s r) q = step s (Reach-trans r q)

module _ {P : Platform} {R : Type 0} (ids : Trio Identity) where
  -- One program after another.
  pub run_bind :
      {A B : Type 0} (m : Trio (Program P R A)) (f : Trio (A → Program P R B))
      (s s' s'' : Trio (Session P)) (a : Trio A) (b : Trio B)
      → Runs ids m s a s'
      → Runs ids (record { p0 = f.p0 a.p0; p1 = f.p1 a.p1; p2 = f.p2 a.p2 }) s' b s''
      → Runs ids
          (record {
            p0 = λ t k. m.p0 t (λ x u. f.p0 x u k);
            p1 = λ t k. m.p1 t (λ x u. f.p1 x u k);
            p2 = λ t k. m.p2 t (λ x u. f.p2 x u k);
          })
          s
          b
          s''
  run_bind m f s s' s'' a b r q k n h =
      let (n', h', steps) = r (λ i x u. at f i x u (k i)) n h in
      let (n'', h'', more) = q k n' h' in (n'', h'', Reach-trans steps more)

module _ (P : Platform) {R : Type 0} (ids : Trio Identity) (apart : Distinct ids) where
  open ids use {p0 as i0, p1 as i1, p2 as i2}

  -- Each party sends a value to the next party and receives the previous party's value.
  pub exchange :
      (v : Trio NetworkValue) (k : PartyId → NetworkValue → Process P.Bytes R)
      → Leads ids
          (record {
            p0 =
                send i1
                  (P.serialize v.p0)
                  (sent (receive i2 (λ x. ok_or_fail (from_network P x) (k id0))));
            p1 =
                send i2
                  (P.serialize v.p1)
                  (sent (receive i0 (λ x. ok_or_fail (from_network P x) (k id1))));
            p2 =
                send i0
                  (P.serialize v.p2)
                  (sent (receive i1 (λ x. ok_or_fail (from_network P x) (k id2))));
          })
          idle
          (record { p0 = k id0 v.p2; p1 = k id1 v.p0; p2 = k id2 v.p1 })
          idle
  exchange v k = lead_send ids apart _ _ id0 id1 _ _ (ground arith) refl (
      lead_send ids apart _ _ id1 id2 _ _ (ground arith) refl (
        lead_send ids apart _ _ id2 id0 _ _ (ground arith) refl (
          lead_receive ids apart _ _ id0 id2 (P.serialize v.p2) [] _ (ground arith) refl refl (
            lead_receive ids apart _ _ id1 id0 (P.serialize v.p0) [] _ (ground arith) refl refl (
              lead_receive ids apart _ _ id2 id1 (P.serialize v.p1) [] _ (ground arith) refl refl (
                rw
                  (
                    P.deserialize-serialize v.p0,
                    P.deserialize-serialize v.p1,
                    P.deserialize-serialize v.p2,
                  )
                  (lead_end ids apart _ _ _ (λ i j. ground arith))))))))
