-- ===== src/Observer.antt =====
-- The observer server (observer/src).
pub mod Sources
pub mod ObservedClients
pub mod ObservedSfus
pub mod Reconnection
pub mod Evaluators
pub mod Entry
pub mod Config
