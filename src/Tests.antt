-- ===== src/Tests.antt =====
-- Runs of the modelled code on small inputs, and uses of the theorems at them.
pub mod Buffer
pub mod Queue
pub mod Numbers
pub mod Pools
pub mod Lists
pub mod Timers
pub mod Trees
pub mod Memory
pub mod Slabs
