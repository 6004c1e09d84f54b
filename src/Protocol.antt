-- ===== src/Protocol.antt =====
-- The messages that the web application and the SFU exchange over a web socket
-- (sfu/src/media/MessageProtocol.ts, webapp/src/utils/MessageProtocol.tsx).
pub mod Json
pub mod Messages
pub mod Codec
