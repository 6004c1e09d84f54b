-- ===== src/Tests.antt =====
-- Runs of the modelled code at concrete inputs: of the SFU's rooms and messages, of the observer's
-- sources and evaluators, of the servers, and of the web application: its connections, its media service
-- and its remote clients.
mod Calls
mod Samples
mod Servers
mod Connections
mod Calling
mod Meeting
mod Settings
