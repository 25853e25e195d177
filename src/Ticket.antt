-- ===== src/Ticket.antt =====
-- Ticket and comment writes: hub/src/ticketwrite.ts, with the gates of hub/src/handoff-gate.ts and
-- hub/src/ac-gate.ts that its update asks.
pub mod Env
pub mod Labels
pub mod Rulings
pub mod Handoff
pub mod Acceptance
pub mod Gates
pub mod Update
pub mod Insert
pub mod Comments
pub mod Invariant
pub mod Examples
