-- ===== src/Pause.antt =====
-- The pause of the scheduler: hub/src/scheduler-pause.ts. The table `scheduler_pause` has one row at
-- most; an instant is its milliseconds.
pub mod Laws
pub mod Examples
use dev_loop.Common.{ℕ, String, Bool, true, false, Option, none, some, leb, if◌then◌else◌}

-- The column `until`: an empty text, a text that is no date, or an instant.
pub data Until : Type 0 where
  blank unreadable : Until
  instant : ℕ → Until

pub record PauseState : Type 0 where
  pub paused_at : ℕ
  pub actor : String
  pub reason : String
  pub until : Option Until

abbrev pub expired : ℕ → Option Until → Bool
expired now (some (instant at)) = leb at now
expired now _ = false

-- `readPause`.
unfoldable pub read_pause : ℕ → Option PauseState → Option PauseState
read_pause now none = none
read_pause now (some row) = if expired now row.until then none else some row

abbrev first_pause : ℕ → Option PauseState → ℕ
first_pause now none = now
first_pause now (some row) = row.paused_at

-- `writePause`: the table after it, which holds the row that it answers with.
unfoldable pub write_pause :
    ℕ → String → String → Option Until → Option PauseState → Option PauseState
write_pause now actor reason until row =
    some (record { paused_at = first_pause now row; actor = actor; reason = reason; until = until })

-- `clearPause`: the table after it, and whether it held a row.
unfoldable pub clear_pause : Option PauseState → Option PauseState × Bool
clear_pause none = (none, false)
clear_pause (some row) = (none, true)
