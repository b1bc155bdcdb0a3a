-- ===== src/ForkServer.antt =====
-- features/forkserver/forkserver.c: the server that a program under test becomes.
pub mod Types
pub mod Os
pub mod Signals
pub mod Trace
pub mod Pipe
pub mod Handshake
pub mod Execute
pub mod Serve
pub mod Protocol
pub mod Tests
