-- ===== src/Optimizer.antt =====
-- spy_der/optimizer.
pub mod FamilyFilter
