-- ===== src/Store.antt =====
-- src/store.rs: the stores of rooms, login states and sessions.
pub mod Types
pub mod Action
pub mod Trait
pub mod Memory
pub mod Redis
