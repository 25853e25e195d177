-- ===== src/Guards.antt =====
-- The guards that stand outside the store: what a fire commits, and what it hands to review.
pub mod Stage
pub mod Admission
pub mod Refusals
pub mod Examples
