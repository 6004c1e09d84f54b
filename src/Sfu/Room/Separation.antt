-- ===== src/Sfu/Room/Separation.antt =====
-- Whom sfu/src/media/Room.ts consumes for. The moves keep what is known of the tasks.
pub mod Loops
pub mod Clients
pub mod Listeners
