-- ===== src/Ijon.antt =====
-- features/ijon/ijon-llvm-rt.o.c: the run-time functions behind the IJON annotations.
pub mod State
pub mod Memory
pub mod Feedback
pub mod Hash
pub mod Distance
pub mod Shm
mod Tests
