-- ===== src/Network.antt =====
-- iris-mpc-cpu/src/network: values, and parties that exchange them over channels.
pub mod Value
pub mod Process
pub mod Local
