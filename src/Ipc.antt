-- ===== src/Ipc.antt =====
-- kernel/src/ipc.rs: ports, messages and the threads that wait for them.
pub mod Trace
pub mod Metrics
pub mod Message
pub mod Ports
mod Tests
