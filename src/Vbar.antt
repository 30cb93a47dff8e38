-- ===== src/Vbar.antt =====
-- Model weights in a reserved address range whose 32 MiB pages come and go: src/model-vbar.c in
-- the Linux CUDA build. Each child holds a part of the file, and its own children the proofs.
pub mod Pages
pub mod Invariant
pub mod Evict
pub mod Reclaim
pub mod Surplus
pub mod Fault
pub mod Owner
pub mod Lifecycle
