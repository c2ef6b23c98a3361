-- ===== src/Execution.antt =====
-- spy_der/execution: orders, fills, the paper broker, exits and reconciliation.
pub mod Fills
pub mod Orders
pub mod PaperBroker
pub mod Reconciliation
pub mod Manager
