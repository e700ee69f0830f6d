-- ===== src/Midware.antt =====
-- The middleware: streams, packets, sessions, the server and the client (midware/src).
pub mod Command
pub mod Packet
pub mod Stream
pub mod Dispatcher
pub mod Receive
pub mod Session
pub mod Server
pub mod Client
