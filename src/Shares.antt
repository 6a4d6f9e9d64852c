-- ===== src/Shares.antt =====
-- iris-mpc-cpu/src/shares: ring elements, bits, and replicated shares of them.
pub mod RingElement
pub mod Bit
pub mod Share
pub mod VecShare
pub mod Transpose
pub mod TransposePack
pub mod Sharing
