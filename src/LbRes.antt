-- ===== src/LbRes.antt =====
-- `clht_lb_res`: the lock-based table with resizing (src/clht_lb_res.c, include/clht_lb_res.h).
pub mod Bucket
pub mod Table
pub mod Resize
pub mod Session
