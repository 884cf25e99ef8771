-- ===== src/ClhtLf/Invariant.antt =====
-- OtherTables/src/clht/src/clht_lf.c: what each thread knows of the bucket, kept by every step.
pub mod Local
pub mod Env
pub mod Change
pub mod Thread
pub mod Kept
pub mod Claims
pub mod Reachable
