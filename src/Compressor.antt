-- ===== src/Compressor.antt =====
-- The compression service (src/compression_service/app/services.py and main.py).
pub mod App
pub mod BaseMiner
pub mod Client
pub mod Events
pub mod Handlers
pub mod Rounds
pub mod Sessions
pub mod Store
mod Tests
