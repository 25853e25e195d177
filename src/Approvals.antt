-- ===== src/Approvals.antt =====
-- The ledger of approvals: hub/src/approvals.ts. A refusal is its error code.
pub mod Ledger
pub mod Calls
pub mod Consult
pub mod Keys
pub mod Authority
pub mod Lifecycle
pub mod Examples
