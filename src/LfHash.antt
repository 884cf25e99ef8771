-- ===== src/LfHash.antt =====
-- OurTable/src/LFHash.h
pub mod Threads
pub mod Hash
pub mod Entry
pub mod Run
pub mod Table
pub mod Insert
pub mod Relocate
pub mod Add
pub mod Remove
pub mod Setup
