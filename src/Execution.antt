-- ===== src/Execution.antt =====
-- iris-mpc-cpu/src/execution: roles, identities and sessions.
pub mod Role
pub mod Session
pub mod Local
