-- ===== src/Tests.antt =====
-- Runs of the model on small inputs, and the theorems at concrete inputs.
mod LbRes
mod MapRem
mod Linked
mod NoNext
mod LockIns
mod Lf
mod Lb
mod Gc
mod Packed
