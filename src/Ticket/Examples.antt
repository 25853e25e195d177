-- ===== src/Ticket/Examples.antt =====
-- A small board, and the theorems on tickets at work on it.
pub mod Board
pub mod Updates
pub mod Rulings
