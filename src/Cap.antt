-- ===== src/Cap.antt =====
-- kernel/src/cap.rs: capabilities, the per-thread tables and the global manager.
pub mod Permissions
pub mod Capability
pub mod Table
pub mod Audit
pub mod Manager
