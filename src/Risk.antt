-- ===== src/Risk.antt =====
-- spy_der/risk: the limits and kill switches, position sizing, and the engine with the veto.
pub mod Limits
pub mod Sizing
pub mod Portfolio
pub mod Engine
pub mod Session
