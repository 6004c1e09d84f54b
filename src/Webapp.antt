-- ===== src/Webapp.antt =====
-- The web application (webapp/src).
pub mod ObserverServiceClient
pub mod ServerConnection
pub mod Store
pub mod RemoteClients
pub mod MediasoupService
pub mod LocalMedia
pub mod Logger
pub mod Cells
pub mod Stats
pub mod DisplayName
