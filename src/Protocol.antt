-- ===== src/Protocol.antt =====
-- iris-mpc-cpu/src/protocol: what the three parties compute together.
pub mod Platform
pub mod Prf
pub mod Program
pub mod Run
pub mod Compose
pub mod Local
pub mod Open
pub mod And
pub mod Convert
pub mod Pack
pub mod Adder
pub mod Extract
pub mod Compare
pub mod Inject
pub mod Lift
pub mod SignedLift
pub mod Ops
pub mod Distance
pub mod Ends
