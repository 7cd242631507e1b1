-- ===== src/Store/Redis/Refines.antt =====
-- The scripts under redis/ refine the allocator of src/allocator.rs.
pub mod Init
pub mod Free
pub mod Create
pub mod Reclaimed
pub mod Reclaim
pub mod Drain
pub mod Drained
