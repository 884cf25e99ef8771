-- ===== src/ClhtGc.antt =====
-- OtherTables/src/clht/src/clht_gc.c: the collection of old tables.
pub mod Versions
pub mod Laws
pub mod Collect
pub mod Destroy
