-- ===== src/Lf.antt =====
-- The lock-free table of src/clht_lf.c and include/clht_lf.h.
pub mod Snapshot
pub mod Bucket
pub mod Threads
