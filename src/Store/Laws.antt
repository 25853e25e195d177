-- ===== src/Store/Laws.antt =====
-- Laws of the tables.
use dev_loop.Common.{true, ◌≡◌, ◌↔◌, arith}
use dev_loop.Store.{State, same_state}

pub same_state_iff : (a b : State) → (same_state a b ≡ true) ↔ (a ≡ b)
same_state_iff a b = ground arith
