-- ===== src/Pause/Laws.antt =====
-- Laws of the pause: hub/src/scheduler-pause.ts.
use dev_loop.Common.{ℕ, ◌≤◌, true, false, Option, none, some, ◌≡◌, refl, ◌⊎◌, inl, inr, arith}
use dev_loop.Pause.{Until, blank, unreadable, instant, expired, PauseState, read_pause}

expired_later :
    (now later : ℕ) (u : Option Until)
    → now ≤ later
    → (expired later u ≡ true) ⊎ (expired now u ≡ false)
expired_later now later none h = inr refl
expired_later now later (some blank) h = inr refl
expired_later now later (some unreadable) h = inr refl
expired_later now later (some (instant at)) h = ground arith

-- A pause that has ended stays over: the clock alone brings no pause back, and the same row is read
-- until it ends.
pub read_pause_later :
    (now later : ℕ) (row : Option PauseState)
    → now ≤ later
    → (read_pause later row ≡ none) ⊎ (read_pause later row ≡ read_pause now row)
unfolding read_pause
read_pause_later now later none h = inl refl
read_pause_later now later (some row) h = ground (arith, expired_later now later row.until h)
