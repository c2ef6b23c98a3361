-- ===== src/Monitoring.antt =====
-- spy_der/monitoring.
pub mod Health
