-- ===== src/Alloc.antt =====
-- src/allocator.rs: public room codes and the tiered allocator of the ids behind them.
pub mod Feistel
pub mod Walk
pub mod Code
pub mod Tier
