-- ===== src/Store/Redis/Scripts.antt =====
-- The scripts under redis/, which the server runs one after another. A script that fails has kept what
-- it had written by then: `none` is its error. What it answers is what src/store.rs reads of its JSON.
mod Answers
mod Tiers
mod Rooms
unfoldable pub use Answers.*
unfoldable pub use Tiers.*
unfoldable pub use Rooms.*
