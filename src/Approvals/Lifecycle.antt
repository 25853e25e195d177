-- ===== src/Approvals/Lifecycle.antt =====
-- A closed approval stays as it is: hub/src/approvals.ts.
pub mod Rows
pub mod Closed
