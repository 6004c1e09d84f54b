-- ===== src/Net.antt =====
-- What the two servers (sfu/src, observer/src) share: the HTTP and web socket server, the chain of
-- middlewares, and the controllers.
pub mod Server
pub mod Middleware
pub mod Controllers
pub mod Logger
pub mod Config
pub mod Query
