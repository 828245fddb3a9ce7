-- ===== src/Syscall.antt =====
-- kernel/src/syscall/mod.rs: the handlers of system calls.
pub mod Codes
pub mod Capabilities
pub mod Threads
pub mod Queries
pub mod Regions
pub mod Ipc
