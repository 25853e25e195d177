-- ===== src/Blockers/Examples.antt =====
-- The markers of blockers at work.
use dev_loop.Common.{false, List, [], ◌∷◌, ◌≡◌, refl, includes}
use dev_loop.Blockers.{ReadComment, live_blocker_ids, parse_marker_lines, readable, extract_ids}
use dev_loop.Blockers.Live.{last_says, live_by_last_marker}

abbrev comments : List ReadComment
comments =
    record { body = "Parked.\nBlocked-by: LOOP-36 needs-ops-access, x-7"; partial = false }
    ∷ record { body = "unblocked-by: loop-36"; partial = false }
    ∷ []

-- An id is read without case and kept in capitals; prose with hyphens is no id.
extract_ids-prose : extract_ids "LOOP-36 needs-ops-access, x-7" ≡ "LOOP-36" ∷ "X-7" ∷ []
unfolding extract_ids
extract_ids-prose = refl

live_x : (live_blocker_ids comments).live ≡ "X-7" ∷ []
unfolding live_blocker_ids
live_x = refl

live_by_last_marker_example :
    includes "LOOP-36" (live_blocker_ids comments).live
    ≡ last_says "LOOP-36" (parse_marker_lines (readable comments)) false
live_by_last_marker_example = live_by_last_marker comments "LOOP-36"
