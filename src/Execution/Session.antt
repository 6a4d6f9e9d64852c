-- ===== src/Execution/Session.antt =====
-- iris-mpc-cpu/src/execution/session.rs: what a party knows of a session.
use text.Mathlib.Text.{◌==◌ as str_eq}
use iris_mpc.Prelude.{ℕ, ◌%◌, List, [], ◌∷◌, Option, none, some, length, ◌==◌, if◌then◌else◌}
use iris_mpc.Execution.Role
use iris_mpc.Execution.Role.{Role, Identity, RoleAssignment}

-- The handle of the network is no field: a program sends and receives by `Network.Process`.
pub record BootSession : Type 0 where
  pub session_id : ℕ
  pub role_assignments : RoleAssignment
  pub own_identity : Identity

-- The roles that the map assigns to an identity.
pub roles_of : Identity → RoleAssignment → List Role
roles_of me [] = []
roles_of me ((r, i) ∷ rest) = if str_eq i me then r ∷ roles_of me rest else roles_of me rest

abbrev exactly_one : List Role → Option Role
exactly_one [] = none
exactly_one (r ∷ []) = some r
exactly_one (r ∷ s ∷ rest) = none

unfoldable pub own_role : BootSession → Option Role
unfolding roles_of
own_role s = exactly_one (roles_of s.own_identity s.role_assignments)

-- The lookup in the map.
pub get : Role → RoleAssignment → Option Identity
get r [] = none
get r ((q, i) ∷ rest) = if q == r then some i else get r rest

unfoldable pub identity : BootSession → Role → Option Identity
unfolding get
identity s r = get r s.role_assignments

infixl 5 ◌>>=◌
abbrev pub ◌>>=◌ : {A B : Type 0} → Option A → (A → Option B) → Option B
none >>= f = none
some a >>= f = f a

-- `role_assignments.len() as u8`
unfoldable pub num_players : BootSession → ℕ
num_players s = length s.role_assignments % 256

unfoldable pub next_identity : BootSession → Option Identity
unfolding own_role identity num_players Role.next
next_identity s = do r ← own_role s; identity s (Role.next r (num_players s))

unfoldable pub prev_identity : BootSession → Option Identity
unfolding own_role identity num_players Role.prev
prev_identity s = do r ← own_role s; identity s (Role.prev r (num_players s))
