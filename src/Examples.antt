-- ===== src/Examples.antt =====
-- The theorems at concrete inputs.
pub mod Numbers
pub mod Bits
pub mod Containers
pub mod Pipes
pub mod Senders
pub mod Sparse
pub mod Deltas
pub mod Maps
pub mod Pools
