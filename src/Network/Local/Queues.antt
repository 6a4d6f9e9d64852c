-- ===== src/Network/Local/Queues.antt =====
-- The map `P2PChannels`: for a sender and a receiver the queue of the channel, if there is one.
use text.Mathlib.Text.{◌==◌ as str_eq}
use text.Mathlib.TextEquality.{eq_iff}
use text.Mathlib.TextPositions.{eq_refl}
use iris_mpc.Prelude.{◌≡◌, ◌≢◌, ◌⊎◌, fun_ext, ◌&&◌, List, Option, some, if◌then◌else◌, arith}
use iris_mpc.Execution.Role.{Identity}

abbrev pub Channels : Type 0 → Type 0
Channels B = Identity → Identity → Option (List B)

abbrev pub update : {B : Type 0} → Channels B → Identity → Identity → List B → Channels B
update n s r q s' r' = if str_eq s s' && str_eq r r' then some q else n s' r'

module _ {B : Type 0} (n : Channels B) (s r : Identity) (q : List B) where
  pub update-same : update n s r q s r ≡ some q
  update-same = rw (eq_refl s, eq_refl r)

  pub update-other : (s' r' : Identity) → ((s ≢ s') ⊎ (r ≢ r')) → update n s r q s' r' ≡ n s' r'
  update-other s' r' h = ground (arith, eq_iff s s', eq_iff r r')

  pub update_comm :
      (s' r' : Identity) (q' : List B)
      → ((s ≢ s') ⊎ (r ≢ r'))
      → update (update n s r q) s' r' q' ≡ update (update n s' r' q') s r q
  update_comm s' r' q' h = fun_ext λ x. fun_ext λ y.
      ground (arith, eq_iff s s', eq_iff r r', eq_iff s x, eq_iff r y, eq_iff s' x, eq_iff r' y)

  pub update_twice : (q' : List B) → update (update n s r q) s r q' ≡ update n s r q'
  update_twice q' = fun_ext λ x. fun_ext λ y. ground (arith, eq_iff s x, eq_iff r y)
