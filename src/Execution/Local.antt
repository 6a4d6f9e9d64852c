-- ===== src/Execution/Local.antt =====
-- iris-mpc-cpu/src/execution/local.rs: the sessions of a local run.
use iris_mpc.Prelude.{[], ◌∷◌}
use iris_mpc.Id.{Trio}
use iris_mpc.Execution.Role.{Identity, RoleAssignment, new}
use iris_mpc.Execution.Session.{BootSession}

unfoldable pub generate_local_identities : Trio Identity
generate_local_identities = record { p0 = "alice"; p1 = "bob"; p2 = "charlie" }

-- The identities in order, each with its index as a role.
unfoldable pub role_assignments : Trio Identity → RoleAssignment
unfolding new
role_assignments ids = (new 0, ids.p0) ∷ (new 1, ids.p1) ∷ (new 2, ids.p2) ∷ []

-- The boot sessions of `LocalRuntime::new_with_network_type`, over local channels.
unfoldable pub boot_sessions : Trio Identity → Trio BootSession
unfolding role_assignments
boot_sessions ids = record {
  p0 = record { session_id = 0; role_assignments = role_assignments ids; own_identity = ids.p0 };
  p1 = record { session_id = 0; role_assignments = role_assignments ids; own_identity = ids.p1 };
  p2 = record { session_id = 0; role_assignments = role_assignments ids; own_identity = ids.p2 };
}
