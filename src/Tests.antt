-- ===== src/Tests.antt =====
-- Concrete inputs, and the theorems at them.
mod Setting
mod Protocols
mod Adder
mod Extract
mod Transpose
mod Network
mod Shares
mod Shamir
mod Sync
mod Lift
mod Galois
mod Match
mod IrisCode
