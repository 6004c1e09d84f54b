-- ===== src/Sfu.antt =====
-- The SFU (sfu/src).
pub mod ClientEvents
pub mod Room
pub mod Rooms
pub mod Entry
pub mod Config
pub mod ObserverServiceClient
