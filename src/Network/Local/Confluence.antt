-- ===== src/Network/Local/Confluence.antt =====
-- The order in which the parties' steps are taken does not change what they reach.
use text.Mathlib.Text.{◌==◌ as str_eq}
use text.Mathlib.TextEquality.{eq_iff}
use iris_mpc.Prelude.{
  ◌≡◌, ◌≢◌, ◌&&◌, ◌⊎◌, inl, inr, refl, sym, Bool, List, [], ◌∷◌, ◌++◌, Option, none, some, arith,
  Bool-cases,
}
use iris_mpc.Id.{PartyId, Trio, at, put, PartyId-discrete, at-put_other, put_comm}
use iris_mpc.Execution.Role.{Identity}
use iris_mpc.Network.Process.{Process, done, send, receive}
use iris_mpc.Network.Local.Queues.{Channels, update, update_twice, update-same}
use iris_mpc.Network.Local.Footprint.{
  Footprint, write, write-other, write_comm, send-Footprint, receive-Footprint,
}
use iris_mpc.Network.Local.{Config, Step, moves, Reach, here, step, act, send_step, receive_step}

-- Both orders of two steps are possible, and end alike.
abbrev Joins :
    {B R : Type 0}
    → Identity
    → Process B R
    → Process B R
    → Channels B
    → Identity
    → Process B R
    → Process B R
    → Channels B
    → Type 0
Joins {B} me p p' n1 ot q q' n2 =
    (n3 : Channels B) × (act ot q n1 ≡ some (q', n3)) × (act me p n2 ≡ some (p', n3))

module _ {B R : Type 0} (me ot : Identity) (n : Channels B) {n1 n2 : Channels B} where
  -- Steps at different channels.
  apart :
      (p q : Process B R) {p' q' : Process B R} (s r s' r' : Identity)
      → ((s ≢ s') ⊎ (r ≢ r'))
      → ((s' ≢ s) ⊎ (r' ≢ r))
      → Footprint me p n s r p' n1
      → Footprint ot q n s' r' q' n2
      → Joins me p p' n1 ot q q' n2
  apart p q s r s' r' h h' (o, e, f) (o', e', f') = (
    write (write n s r o) s' r' o',
    rw e (f' (write n s r o) (write-other n s r s' r' h o)),
    rw (e', write_comm n s r s' r' h o o') (f (write n s' r' o') (write-other n s' r' s r h' o')),
  )

  -- One sends what the other receives.
  meet :
      (b : B) (k : Bool → Process B R) (k' : Option B → Process B R) {p' q' : Process B R}
      (o : Option (List B))
      → n me ot ≡ o
      → send_step n me ot b k o ≡ some (p', n1)
      → receive_step n ot me k' o ≡ some (q', n2)
      → Joins me (send ot b k) p' n1 ot (receive me k') q' n2
  unfolding act
  meet b k k' none found e e' =
      let s : n1 ≡ n = ground arith in
      let t : n2 ≡ n = ground arith in
      (n, rw (s, found) (ground arith), rw (t, found) (ground arith))
  meet b k k' (some []) found e e' = absurd (cc)
  meet b k k' (some (c ∷ q)) found e e' =
      let s : n1 ≡ update n me ot (c ∷ (q ++ b ∷ [])) = ground arith in
      let t : n2 ≡ update n me ot q = ground arith in
      (
        update n me ot (q ++ b ∷ []),
        rw
            (
              s,
              update-same n me ot (c ∷ (q ++ b ∷ [])),
              update_twice n me ot (c ∷ (q ++ b ∷ [])) (q ++ b ∷ []),
            )
            (ground arith),
        rw (t, update-same n me ot q, update_twice n me ot q (q ++ b ∷ [])) (ground arith),
      )

  -- A send and a step of another party.
  send_receive :
      (to from : Identity) (b : B) (k : Bool → Process B R) (k' : Option B → Process B R)
      {p' q' : Process B R}
      → me ≢ ot
      → act me (send to b k) n ≡ some (p', n1)
      → act ot (receive from k') n ≡ some (q', n2)
      → Joins me (send to b k) p' n1 ot (receive from k') q' n2
  unfolding act
  send_receive to from b k k' other e e' = elim (Bool-cases (str_eq me from && str_eq to ot)) [
    | inl same ↦
        let hf : from ≡ me = ground (arith, eq_iff me from, eq_iff to ot) in
        let ht : to ≡ ot = ground (arith, eq_iff me from, eq_iff to ot) in
        rw (hf, ht) (meet b k k' (n me ot) refl (rw ht at e) (rw hf at e'))
    | inr differ ↦
        let h : (me ≢ from) ⊎ (to ≢ ot) = ground (arith, eq_iff me from, eq_iff to ot) in
        let h' : (from ≢ me) ⊎ (ot ≢ to) = ground (arith, eq_iff me from, eq_iff to ot) in
        apart (send to b k) (receive from k') me to from ot h h'
          (send-Footprint me n to b k (n me to) refl e)
          (receive-Footprint ot n from k' (n from ot) refl e')
  ]

-- Of two different parties' steps, both orders are possible and end alike.
act_diamond :
    {B R : Type 0} (me ot : Identity) (p q : Process B R) (n : Channels B) {p' q' : Process B R}
    {n1 n2 : Channels B}
    → me ≢ ot
    → act me p n ≡ some (p', n1)
    → act ot q n ≡ some (q', n2)
    → Joins me p p' n1 ot q q' n2
unfolding act
act_diamond me ot (done r) q n other e e' = absurd (cc)
act_diamond me ot (send to b k) (done r) n other e e' = absurd (cc)
act_diamond me ot (send to b k) (send to' b' k') n other e e' =
    apart me ot n (send to b k) (send to' b' k') me to ot to' (inl other) (inl (λ h. other (sym h)))
      (send-Footprint me n to b k (n me to) refl e)
      (send-Footprint ot n to' b' k' (n ot to') refl e')
act_diamond me ot (send to b k) (receive from k') n other e e' =
    send_receive me ot n to from b k k' other e e'
act_diamond me ot (receive from k) (done r) n other e e' = absurd (cc)
act_diamond me ot (receive from k) (send to b k') n other e e' =
    let (n3, f, f') = send_receive ot me n to from b k' k (λ h. other (sym h)) e' e in (n3, f', f)
act_diamond me ot (receive from k) (receive from' k') n other e e' =
    apart me ot n (receive from k) (receive from' k') from me from' ot (inr other)
      (inr (λ h. other (sym h))) (receive-Footprint me n from k (n from me) refl e)
      (receive-Footprint ot n from' k' (n from' ot) refl e')

abbrev pub Distinct : Trio Identity → Type 0
Distinct ids = (i j : PartyId) → i ≢ j → at ids i ≢ at ids j

abbrev pub IsFinal : {B R : Type 0} → Config B R → Type 0
IsFinal {B} {R} c = (i : PartyId) → (r : Option R) × (at c.parties i ≡ done r)

module _ {B R : Type 0} (ids : Trio Identity) where
  -- Of steps of two parties, each can follow the other, to the same configuration.
  Step-diamond :
      Distinct ids
      → (c : Config B R) (i j : PartyId) (p q : Process B R) (n m : Channels B) → i ≢ j
      → act (at ids i) (at c.parties i) c.channels ≡ some (p, n)
      → act (at ids j) (at c.parties j) c.channels ≡ some (q, m)
      → (f : Config B R) × Step ids (record { parties = put c.parties i p; channels = n }) f
        × Step ids (record { parties = put c.parties j q; channels = m }) f
  Step-diamond apart_ids c i j p q n m other e e' =
      let (o, f, f') =
        act_diamond (at ids i) (at ids j) (at c.parties i) (at c.parties j) c.channels
          (apart_ids i j other) e e' in
      (
        record { parties = put (put c.parties i p) j q; channels = o },
        moves j q o (rw (at-put_other c.parties i j p other) f),
        rw (put_comm c.parties i j p q other)
            (moves i p o (rw (at-put_other c.parties j i q (λ h. other (sym h))) f')),
      )

  stuck : (c : Config B R) → IsFinal c → {d : Config B R} → ¬ Step ids c d
  unfolding act
  stuck c final (moves i p n e) = ground (arith, final i)

  -- A step on the way to a final configuration loses nothing.
  strip :
      Distinct ids
      → {c d : Config B R} → Reach ids c d
      → IsFinal d
      → (e : Config B R) → Step ids c e
      → Reach ids e d
  strip apart_ids here final e s = absurd (stuck _ final s)
  strip apart_ids (step (moves i p n h) rest) final e (moves j q m h') =
      elim (PartyId-discrete i j) [
        | yes same ↦
            let h'' = rw (← same) at h' in
            let pq : p ≡ q = ground arith in
            let nm : n ≡ m = ground arith in rw (← same, ← pq, ← nm) rest
        | no other ↦
            let (f, t, t') = Step-diamond apart_ids _ i j p q n m other h h' in
            step t' (strip apart_ids rest final f t)
      ]

  -- If three parties with different identities can reach a final configuration at all, then
  -- wherever any other order of steps has taken them, they can still reach that configuration.
  pub Reach-confluent :
      Distinct ids
      → {c d e : Config B R} → Reach ids c d
      → IsFinal d
      → Reach ids c e
      → Reach ids e d
  Reach-confluent apart_ids r final here = r
  Reach-confluent apart_ids r final (step s rest) =
      Reach-confluent apart_ids (strip apart_ids r final _ s) final rest
