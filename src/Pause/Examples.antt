-- ===== src/Pause/Examples.antt =====
-- The pause at work.
use dev_loop.Common.{some, none, ◌≡◌, ◌⊎◌, arith}
use dev_loop.Pause.{instant, PauseState, read_pause}
use dev_loop.Pause.Laws.{read_pause_later}

abbrev row : PauseState
row = record {
  paused_at = 10;
  actor = "operator";
  reason = "deploy freeze";
  until = some (instant 40);
}

pause_over :
    (read_pause 50 (some row) ≡ none) ⊎ (read_pause 50 (some row) ≡ read_pause 20 (some row))
pause_over = read_pause_later 20 50 (some row) (omega arith)
