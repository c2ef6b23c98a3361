-- ===== src/Runtime.antt =====
-- spy_der/runtime.
pub mod Calendar
pub mod Sessions
pub mod Supervisor
