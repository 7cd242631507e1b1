-- ===== src/Store/Redis/Laws.antt =====
-- What the methods of `RedisRoomStore` answer, when their requests are answered and when not.
pub mod Codecs
pub mod Tiers
pub mod Rooms
pub mod Updates
pub mod Lost
pub mod Sessions
