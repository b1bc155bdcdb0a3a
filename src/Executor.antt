-- ===== src/Executor.antt =====
-- src/utils/executor.cpp: the client that starts a fork server and has it execute the program.
pub mod Types
pub mod Effect
pub mod Host
pub mod Pipe
pub mod Start
pub mod Execute
pub mod Stream
pub mod Steps
pub mod Rounds
pub mod Collect
pub mod Operator
pub mod Session
pub mod Connect
pub mod Served
pub mod Balance
mod Tests
