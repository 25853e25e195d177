-- ===== src/MergeGuard/Gate/Checks.antt =====
-- A failed or absent check holds the merge: hub/src/merge-guard.ts, hub/src/landing.ts.
use dev_loop.Common.{String, Bool, true, false, ◌&&◌, Option, none, some, List, ◌≡◌, any, ◌⊎◌}
use dev_loop.Ticket.Env.{Env}
use dev_loop.Landing.{Check}
use dev_loop.Landing.Freshness.{Reason, Verdict, concluded, is_named}
use dev_loop.MergeGuard.Checks.{verdict_trips}

-- The check failed, or the rollup does not have it.
abbrev pub IsUnsafe : List Check → String → Type 0
IsUnsafe checks need =
    (any (λ c. is_named need c && concluded "FAILURE" c) checks ≡ true)
    ⊎ (any (is_named need) checks ≡ false)

abbrev judged_trip : Option (Verdict × Reason) → Bool
judged_trip none = false
judged_trip (some (v, r)) = verdict_trips v
