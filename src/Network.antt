-- ===== src/Network.antt =====
-- The network library in its Linux build (network/src), and the client's connection
-- (simplenetwork/src). What a system call answers is an input.
pub mod ContextPool
pub mod Completion
pub mod Acceptor
pub mod Worker
pub mod Receiving
pub mod Sending
pub mod Simple
mod Tests
