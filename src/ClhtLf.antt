-- ===== src/ClhtLf.antt =====
-- OtherTables/src/clht/src/clht_lf.c and include/clht_lf.h: the lock-free cache-line hash table.
pub mod Bucket
pub mod Worker
pub mod System
pub mod Zero
pub mod Invariant
pub mod Refinement
pub mod Table
pub mod Power
