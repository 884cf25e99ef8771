-- ===== src/ClhtLbRes.antt =====
-- OtherTables/src/clht/src/clht_lb_res.c and include/clht_lb_res.h: the hash table with locks that
-- grows.
pub mod Round
pub mod Powers
pub mod Table
pub mod Status
pub mod Ops
pub mod Fill
pub mod Change
pub mod Locked
pub mod Copy
pub mod Move
pub mod Grow
pub mod Factor
pub mod Settle
pub mod Refinement
pub mod Errors
pub mod Roundtrip
