-- ===== src/Servable/Examples.antt =====
-- A board with work for two tiers.
use dev_loop.Common.{
  ℕ, ◌+◌, ◌≤◌, String, Bool, true, false, Option, none, some, List, [], ◌∷◌, ◌≡◌, refl, map, All,
  length, arith,
}
use dev_loop.Common.Sorting.{IsSorted}
use dev_loop.Store.{Db, Ticket, State, todo}
use dev_loop.Design.Pointer.{direct_code}
use dev_loop.Ticket.Examples.Board.{empty_db, ticket1}
use dev_loop.Servable.{
  Slice, Depth, picked_first, servable_slice, servable_todo_depth, pm_maintenance_slice,
  senior_dev_mode_pick, backlog_fingerprint,
}
use dev_loop.Servable.Slices.{
  IsServed, IsPlain, slice_is_own, junior_gets_no_sensitive, slice_is_ranked,
}
use dev_loop.Servable.Depths.{depth_counts_slice, depth_bound}

abbrev row : String → String → State → String → List String → ℕ → Ticket
row id type st owner labels at = record ticket1 {
  id = id;
  type = type;
  state = st;
  assignee = some owner;
  labels = labels;
  description = "Mode: direct-code";
  created_at = at;
}

abbrev board : Db
board = record empty_db {
  tickets =
      row "L-1" "Improvement" todo "junior-dev" [] 1
      ∷ row "L-2" "Bug" todo "junior-dev" [] 2
      ∷ row "L-3" "Bug" todo "junior-dev" ("sensitive" ∷ []) 3
      ∷ row "L-4" "Feature" todo "senior-dev" ("blocked" ∷ []) 4
      ∷ row "L-5" "Feature" todo "senior-dev" [] 5
      ∷ [];
}

abbrev id_of : Ticket → String
id_of t = t.id

-- The bug goes first, and the sensitive one is not served.
junior_slice : map id_of (servable_slice board "p" "junior-dev").todo ≡ "L-2" ∷ "L-1" ∷ []
unfolding servable_slice dev_loop.Common.Sorting.sort_by dev_loop.Servable.by_state
    dev_loop.Servable.is_todo_servable_for dev_loop.Servable.pick_rank
junior_slice = refl

senior_mode : senior_dev_mode_pick board "p" ≡ direct_code
unfolding senior_dev_mode_pick dev_loop.Servable.by_state dev_loop.Common.Sorting.sort_by
    dev_loop.Servable.is_todo_servable_for dev_loop.Design.Pointer.mode_marker_of
senior_mode = refl

todo_depth :
    servable_todo_depth board "p" ≡ record { total = 4; senior_dev = 1; junior_dev = 2; dev = 0 }
unfolding servable_todo_depth dev_loop.Servable.by_state dev_loop.Common.Sorting.sort_by
    dev_loop.Servable.is_todo_servable_for
todo_depth = refl

no_lanes : pm_maintenance_slice board "p" ≡ record { verify = 0; unblock = 0 }
unfolding pm_maintenance_slice dev_loop.Common.Sorting.sort_by
no_lanes = refl

empty_backlog : backlog_fingerprint board "p" ≡ record { count = 0; newest = none }
unfolding backlog_fingerprint
empty_backlog = refl

slice_owned : All (IsServed "p" "senior-dev") (servable_slice board "p" "senior-dev").todo
slice_owned = slice_is_own board "p" "senior-dev"

junior_gets_no_sensitive_example :
    All IsPlain (servable_slice board "p" "junior-dev").todo
    × All IsPlain (servable_slice board "p" "junior-dev").in_progress
    × All IsPlain (servable_slice board "p" "junior-dev").in_review
junior_gets_no_sensitive_example = junior_gets_no_sensitive board "p"

slice_ranks : IsSorted picked_first (servable_slice board "p" "junior-dev").todo
slice_ranks = slice_is_ranked board "p" "junior-dev"

depth_counts_slice_example :
    ((servable_todo_depth board "p").senior_dev
      ≡ length (servable_slice board "p" "senior-dev").todo)
    × ((servable_todo_depth board "p").junior_dev
        ≡ length (servable_slice board "p" "junior-dev").todo)
    × ((servable_todo_depth board "p").dev ≡ length (servable_slice board "p" "dev").todo)
depth_counts_slice_example = depth_counts_slice board "p"

depths_bounded :
    (servable_todo_depth board "p").senior_dev
      + (servable_todo_depth board "p").junior_dev
      + (servable_todo_depth board "p").dev
    ≤ (servable_todo_depth board "p").total
depths_bounded = depth_bound board "p"
