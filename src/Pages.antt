-- ===== src/Pages.antt =====
-- src/app.rs: the two pages of the program.
pub mod Remote
pub mod Landing
pub mod Room
