-- ===== src/Ticket/Gates.antt =====
-- The gates of an update, in the order in which `updateTicketRow` asks them:
-- hub/src/ticketwrite.ts.
pub mod States
pub mod Designs
pub mod Chain
