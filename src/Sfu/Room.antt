-- ===== src/Sfu/Room.antt =====
-- A room of the SFU (sfu/src/media/Room.ts).
pub mod State
pub mod Consume
pub mod Handlers
pub mod Step
pub mod Moves
pub mod Ending
pub mod Leaving
pub mod Silence
pub mod Separation
pub mod Registry
pub mod Transports
pub mod Answers
pub mod Overlap
pub mod Feeding
pub mod Joining
pub mod Gathering
pub mod Welcoming
