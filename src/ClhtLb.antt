-- ===== src/ClhtLb.antt =====
-- OtherTables/src/clht/src/clht_lb.c and include/clht_lb.h: the cache-line hash table with locks.
pub mod Chain
pub mod Slots
pub mod Flat
pub mod Laws
pub mod Table
pub mod Replace
pub mod Refinement
pub mod Create
pub mod Roundtrip
pub mod Seq
