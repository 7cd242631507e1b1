-- ===== src/Tests.antt =====
-- Runs of the model on small data, and the theorems at concrete data.
pub mod AllocTests
pub mod StoreTests
pub mod TaskTests
pub mod ApiTests
pub mod CryptoTests
pub mod ToyRedis
pub mod RedisTests
pub mod ReclaimerTests
pub mod PageTests
pub mod ConfigTests
pub mod RouterTests
