-- ===== src/Network/Local/Footprint.antt =====
-- What one step of a party reads and writes.
use iris_mpc.Prelude.{◌≡◌, ◌≢◌, ◌⊎◌, refl, Bool, List, [], ◌∷◌, ◌++◌, Option, none, some, arith}
use iris_mpc.Execution.Role.{Identity}
use iris_mpc.Network.Process.{Process, send, receive}
use iris_mpc.Network.Local.Queues.{Channels, update, update-other, update_comm}
use iris_mpc.Network.Local.{act, send_step, receive_step}

-- What a step leaves in its channel; `none` where there is no channel.
abbrev pub write : {B : Type 0} → Channels B → Identity → Identity → Option (List B) → Channels B
write n s r none = n
write n s r (some q) = update n s r q

module _ {B : Type 0} (n : Channels B) (s r s' r' : Identity) (h : (s ≢ s') ⊎ (r ≢ r')) where
  pub write-other : (o : Option (List B)) → write n s r o s' r' ≡ n s' r'
  write-other none = refl
  write-other (some q) = update-other n s r q s' r' h

  pub write_comm :
      (o o' : Option (List B)) → write (write n s r o) s' r' o' ≡ write (write n s' r' o') s r o
  write_comm none none = refl
  write_comm none (some q') = refl
  write_comm (some q) none = refl
  write_comm (some q) (some q') = update_comm n s r q s' r' q' h

-- A step reads one channel and writes only that channel.
abbrev pub Footprint :
    {B R : Type 0}
    → Identity
    → Process B R
    → Channels B
    → Identity
    → Identity
    → Process B R
    → Channels B
    → Type 0
Footprint {B} me p n s r p' n' =
    (o : Option (List B)) × (n' ≡ write n s r o)
    × ((m : Channels B) → m s r ≡ n s r → act me p m ≡ some (p', write m s r o))

module _ {B R : Type 0} (me : Identity) (n : Channels B) {p' : Process B R} {n' : Channels B} where
  pub send-Footprint :
      (to : Identity) (b : B) (k : Bool → Process B R) (o : Option (List B))
      → n me to ≡ o
      → send_step n me to b k o ≡ some (p', n')
      → Footprint me (send to b k) n me to p' n'
  unfolding act
  send-Footprint to b k none found e =
      (none, ground arith, λ m same. rw (same, found) (ground arith))
  send-Footprint to b k (some q) found e =
      (some (q ++ b ∷ []), ground arith, λ m same. rw (same, found) (ground arith))

  pub receive-Footprint :
      (from : Identity) (k : Option B → Process B R) (o : Option (List B))
      → n from me ≡ o
      → receive_step n me from k o ≡ some (p', n')
      → Footprint me (receive from k) n from me p' n'
  unfolding act
  receive-Footprint from k none found e =
      (none, ground arith, λ m same. rw (same, found) (ground arith))
  receive-Footprint from k (some []) found e = absurd (cc)
  receive-Footprint from k (some (b ∷ q)) found e =
      (some q, ground arith, λ m same. rw (same, found) (ground arith))
