-- ===== src/Webapp/MediasoupService.antt =====
-- The media service of the web application (webapp/src/contexts/MediasoupService.tsx).
pub mod State
pub mod Connecting
pub mod Media
pub mod Step
pub mod Stages
pub mod Phases
pub mod Order
pub mod Marking
pub mod Pausing
pub mod Others
