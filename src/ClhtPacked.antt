-- ===== src/ClhtPacked.antt =====
-- OtherTables/src/clht/src/clht_lb_packed.c: chains of buckets whose entries are packed to the front.
pub mod Chain
pub mod Entries
pub mod Laws
pub mod Put
pub mod Swap
pub mod Remove
pub mod Removal
pub mod Added
pub mod Table
pub mod Change
pub mod Refinement
