-- ===== src/MergeGuard.antt =====
-- The guard before a merge: hub/src/merge-guard.ts. The answers of `git` and `gh`, the registry of
-- repositories and the board's database are arguments.
pub mod Config
pub mod Objection
pub mod Results
pub mod Tickets
pub mod Reviews
pub mod Checks
pub mod Apply
pub mod Run
pub mod Gate
pub mod Examples
