-- ===== src/Graph/Cycles/Sound.antt =====
-- The search ends, and what it reports waits on itself.
pub mod Colored
pub mod Ends
