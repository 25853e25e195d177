-- ===== src/Servable/Depths.antt =====
-- The depths count what the slices serve: hub/src/servable.ts.
use dev_loop.Common.{
  ℕ, ◌+◌, ◌≤◌, String, false, ◌&&◌, ◌||◌, Option, none, some, List, [], ◌∷◌, map, ◌==◌, ◌≡◌, ◌∙◌,
  refl, inl, inr, ap, arith, filter, length, eq_iff, Bool-cases,
}
use dev_loop.Common.Sorting.{length-sort_by}
use dev_loop.Store.{Db, Ticket, todo}
use dev_loop.Servable.{
  assigned_to, unassigned, is_todo_servable_for, summary, by_state, picked_first, ranked_todo,
  servable_slice, Depth, tally, tally_all, no_depth, servable_todo_depth,
}

length-map : (f : Ticket → Ticket) (ts : List Ticket) → length (map f ts) ≡ length ts
length-map f [] = refl
length-map f (t ∷ ts) = omega (arith, length-map f ts)

abbrev count_for : String → List Ticket → ℕ
count_for actor ts = length (filter (is_todo_servable_for actor) ts)

-- Each field of the depth counts the servable tickets of its tier.
tally_counts :
    (ts : List Ticket) (d : Depth)
    → ((tally_all ts d).senior_dev ≡ count_for "senior-dev" ts + d.senior_dev)
      × ((tally_all ts d).junior_dev ≡ count_for "junior-dev" ts + d.junior_dev)
      × ((tally_all ts d).dev ≡ count_for "dev" ts + d.dev)
unfolding tally_all is_todo_servable_for
tally_counts [] d = omega arith
tally_counts (t ∷ ts) d = ground (arith, tally_counts ts (tally t d))

slice-length :
    (db : Db) (project_id actor : String)
    → length (servable_slice db project_id actor).todo
      ≡ count_for actor (by_state db project_id todo)
unfolding servable_slice ranked_todo
slice-length db project_id actor = omega (
  arith,
  length-map summary (ranked_todo db project_id actor),
  length-sort_by picked_first (filter (is_todo_servable_for actor) (by_state db project_id todo)),
)

-- The Todo depth of each tier is the length of the Todo slice that the tier is served.
pub depth_counts_slice :
    (db : Db) (project_id : String)
    → ((servable_todo_depth db project_id).senior_dev
        ≡ length (servable_slice db project_id "senior-dev").todo)
      × ((servable_todo_depth db project_id).junior_dev
          ≡ length (servable_slice db project_id "junior-dev").todo)
      × ((servable_todo_depth db project_id).dev ≡ length (servable_slice db project_id "dev").todo)
unfolding servable_todo_depth
depth_counts_slice db project_id = omega (
  arith,
  tally_counts (by_state db project_id todo) no_depth,
  slice-length db project_id "senior-dev",
  slice-length db project_id "junior-dev",
  slice-length db project_id "dev",
)

other_text : (x s t : String) → (s == t) ≡ false → (x == s && x == t) ≡ false
other_text x s t h = elim (Bool-cases (x == s)) [
  | inl same ↦ rw same (ap (λ y. y == t) ((eq_iff x s).0 same) ∙ h)
  | inr other ↦ rw other refl
]

-- An assignee belongs to one tier.
one_tier :
    (a : Option String)
    → ((assigned_to "senior-dev" a && assigned_to "junior-dev" a) ≡ false)
      × ((assigned_to "senior-dev" a && (unassigned a || assigned_to "dev" a)) ≡ false)
      × ((assigned_to "junior-dev" a && (unassigned a || assigned_to "dev" a)) ≡ false)
one_tier none = (refl, refl, refl)
one_tier (some x) = (
  other_text x "senior-dev" "junior-dev" refl,
  other_text x "senior-dev" "dev" refl,
  other_text x "junior-dev" "dev" refl,
)

tally-bound :
    (t : Ticket) (d : Depth)
    → d.senior_dev + d.junior_dev + d.dev ≤ d.total
    → (tally t d).senior_dev + (tally t d).junior_dev + (tally t d).dev ≤ (tally t d).total
unfolding tally is_todo_servable_for
tally-bound t d h = ground (arith, one_tier t.assignee)

-- No ticket is counted for two tiers.
tally_bound :
    (ts : List Ticket) (d : Depth)
    → d.senior_dev + d.junior_dev + d.dev ≤ d.total
    → (tally_all ts d).senior_dev + (tally_all ts d).junior_dev + (tally_all ts d).dev
      ≤ (tally_all ts d).total
unfolding tally_all
tally_bound [] d h = h
tally_bound (t ∷ ts) d h = tally_bound ts (tally t d) (tally-bound t d h)

-- The depths of the three tiers together are at most the total.
pub depth_bound :
    (db : Db) (project_id : String)
    → (servable_todo_depth db project_id).senior_dev
        + (servable_todo_depth db project_id).junior_dev
        + (servable_todo_depth db project_id).dev
      ≤ (servable_todo_depth db project_id).total
unfolding servable_todo_depth
depth_bound db project_id = tally_bound (by_state db project_id todo) no_depth (omega arith)
