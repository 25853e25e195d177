-- ===== src/Servable.antt =====
-- Which tickets a tier of developers may take, and the counts that the scheduler reads:
-- hub/src/servable.ts. Ranks are doubled, so that 4.5 is a number.
pub mod Slices
pub mod Depths
pub mod Examples
use dev_loop.Common.{
  ℕ, suc, ◌+◌, String, Bool, true, false, not, ◌&&◌, ◌||◌, Option, none, some, List, [], ◌∷◌, map,
  ◌==◌, filter, any, includes, leb, ltb, eqb, head?, is_nil, ◌or_else◌, get_or, if◌then◌else◌,
}
use dev_loop.Common.Sorting.{sort_by}
use dev_loop.Store.{
  Db, Ticket, State, backlog, todo, in_progress, in_review, done, canceled, duplicate, same_state,
}
use dev_loop.Design.{design_parent_ids, is_design_parent}
use dev_loop.Design.Pointer.{ModeMarker, design, direct_code, mode_marker_of}
use dev_loop.Ticket.Gates.Designs.{design_rows}

-- `PICK_RANK`, doubled.
unfoldable pub pick_rank : Ticket → ℕ
pick_rank t =
    if eqb t.priority 1 && t.type == "Bug"
    then 0
    else if eqb t.priority 1 && t.type == "Feature"
    then 2
    else if t.type == "Bug" && includes "edge-case" t.labels
    then 4
    else if t.type == "Bug"
    then 6
    else if t.type == "Feature"
    then 8
    else if eqb t.priority 1
    then 9
    else 10

abbrev pub assigned_to : String → Option String → Bool
assigned_to actor none = false
assigned_to actor (some a) = a == actor

abbrev pub unassigned : Option String → Bool
unassigned none = true
unassigned (some a) = false

abbrev pub not_sensitive_for_junior : String → Ticket → Bool
not_sensitive_for_junior actor t =
    not (actor == "junior-dev") || not (includes "sensitive" t.labels)

abbrev pub is_mine : String → Ticket → Bool
is_mine actor t =
    if actor == "dev"
    then unassigned t.assignee || assigned_to "dev" t.assignee
    else assigned_to actor t.assignee

unfoldable pub is_todo_servable_for : String → Ticket → Bool
is_todo_servable_for actor t =
    not (includes "blocked" t.labels) && (is_mine actor t && not_sensitive_for_junior actor t)

unfoldable pub is_dev_tier_actor : String → Bool
is_dev_tier_actor actor = actor == "dev" || actor == "senior-dev" || actor == "junior-dev"

abbrev pub summary : Ticket → Ticket
summary t = record t { description = "" }

abbrev pub created_first : Ticket → Ticket → Bool
created_first x y = leb x.created_at y.created_at

abbrev pub is_row_in : String → State → Ticket → Bool
is_row_in project_id st t = t.project_id == project_id && same_state t.state st

-- The rows of a state, in the order of their creation.
unfoldable pub by_state : Db → String → State → List Ticket
by_state db project_id st = sort_by created_first (filter (is_row_in project_id st) db.tickets)

-- `PICK_RANK(x) - PICK_RANK(y) || x.created_at.localeCompare(y.created_at)` is at most 0.
abbrev pub picked_first : Ticket → Ticket → Bool
picked_first x y =
    ltb (pick_rank x) (pick_rank y) || (eqb (pick_rank x) (pick_rank y) && created_first x y)

pub record Slice : Type 0 where
  pub todo : List Ticket
  pub in_progress : List Ticket
  pub in_review : List Ticket

abbrev pub resumes : String → Ticket → Bool
resumes actor t = assigned_to actor t.assignee && not_sensitive_for_junior actor t

abbrev pub lands : String → Ticket → Bool
lands actor t =
    let tier_label = is_dev_tier_actor actor && not (actor == "dev") in
    (assigned_to actor t.assignee
      || (tier_label && unassigned t.assignee && includes actor t.labels))
    && not_sensitive_for_junior actor t

-- The servable Todo, as it is picked.
unfoldable pub ranked_todo : Db → String → String → List Ticket
ranked_todo db project_id actor =
    sort_by picked_first (filter (is_todo_servable_for actor) (by_state db project_id todo))

unfoldable pub servable_slice : Db → String → String → Slice
unfolding ranked_todo
servable_slice db project_id actor = record {
  todo = map summary (ranked_todo db project_id actor);
  in_progress = map summary (filter (resumes actor) (by_state db project_id in_progress));
  in_review = map summary (filter (lands actor) (by_state db project_id in_review));
}

-- `TERMINAL_STATES`.
abbrev pub is_terminal : State → Bool
is_terminal done = true
is_terminal canceled = true
is_terminal duplicate = true
is_terminal _ = false

pub record Lane : Type 0 where
  pub verify : ℕ
  pub unblock : ℕ

abbrev bump : Bool → ℕ → ℕ
bump b n = if b then suc n else n

-- One round of a loop over the rows, with the owner's label and the test of a row for its unblock job.
abbrev count_row : String → (List String → Bool) → Ticket → Lane → Lane
count_row owner unblocks t l = if is_terminal t.state then l else record {
  verify = bump (same_state t.state in_review && includes owner t.labels) l.verify;
  unblock = bump (unblocks t.labels) l.unblock;
}

count_rows : String → (List String → Bool) → List Ticket → Lane → Lane
count_rows owner unblocks [] l = l
count_rows owner unblocks (t ∷ ts) l = count_rows owner unblocks ts (count_row owner unblocks t l)

abbrev pub pm_unblocks : List String → Bool
pm_unblocks labels =
    includes "needs-pm" labels
    || (includes "blocked" labels
        && (includes "decision-needed" labels || includes "scope-design" labels))

abbrev pub qa_unblocks : List String → Bool
qa_unblocks labels =
    includes "needs-qa" labels || (includes "blocked" labels && includes "info-needed" labels)

abbrev pub rows_of : Db → String → List Ticket
rows_of db project_id = sort_by created_first (filter (λ t. t.project_id == project_id) db.tickets)

unfoldable pub pm_maintenance_slice : Db → String → Lane
unfolding count_rows
pm_maintenance_slice db project_id =
    count_rows "pm" pm_unblocks (rows_of db project_id) record { verify = 0; unblock = 0 }

unfoldable pub qa_maintenance_slice : Db → String → Lane
unfolding count_rows
qa_maintenance_slice db project_id =
    count_rows "qa" qa_unblocks (rows_of db project_id) record { verify = 0; unblock = 0 }

-- `supersedesCanceled`: a related ticket of the project is Canceled.
unfoldable pub supersedes_canceled : Db → String → List String → Bool
supersedes_canceled db project_id related_to =
    any (λ t. t.project_id == project_id && includes t.id related_to && same_state t.state canceled)
      db.tickets

mode_without_marker : Db → String → Ticket → ModeMarker
unfolding supersedes_canceled design_rows
mode_without_marker db project_id t =
    if is_design_parent t.id t.description (design_parent_ids (design_rows db project_id))
    then design
    else if supersedes_canceled db project_id t.related_to
    then direct_code
    else design

mode_of_pick : Db → String → Option Ticket → ModeMarker
unfolding mode_without_marker
mode_of_pick db project_id none = design
mode_of_pick db project_id (some t) =
    get_or (mode_marker_of t.description) (mode_without_marker db project_id t)

-- The ticket in progress goes before the servable Todo.
unfoldable pub senior_pick : Db → String → Option Ticket
unfolding ranked_todo
senior_pick db project_id =
    head? (filter (λ t. assigned_to "senior-dev" t.assignee) (by_state db project_id in_progress))
    or_else head? (ranked_todo db project_id "senior-dev")

unfoldable pub senior_dev_mode_pick : Db → String → ModeMarker
unfolding senior_pick mode_of_pick
senior_dev_mode_pick db project_id = mode_of_pick db project_id (senior_pick db project_id)

pub record Depth : Type 0 where
  pub total : ℕ
  pub senior_dev : ℕ
  pub junior_dev : ℕ
  pub dev : ℕ

unfoldable pub tally : Ticket → Depth → Depth
tally t d = if includes "blocked" t.labels then d else record {
  total = suc d.total;
  senior_dev = bump (is_todo_servable_for "senior-dev" t) d.senior_dev;
  junior_dev = bump (is_todo_servable_for "junior-dev" t) d.junior_dev;
  dev = bump (is_todo_servable_for "dev" t) d.dev;
}

unfoldable pub tally_all : List Ticket → Depth → Depth
unfolding tally
tally_all [] d = d
tally_all (t ∷ ts) d = tally_all ts (tally t d)

abbrev pub no_depth : Depth
no_depth = record { total = 0; senior_dev = 0; junior_dev = 0; dev = 0 }

unfoldable pub servable_backlog_depth : Db → String → Depth
unfolding tally_all
servable_backlog_depth db project_id = tally_all (by_state db project_id backlog) no_depth

unfoldable pub servable_todo_depth : Db → String → Depth
unfolding tally_all
servable_todo_depth db project_id = tally_all (by_state db project_id todo) no_depth

-- `backlogFingerprint`: the count and the newest touch of the rows that are not blocked.
pub record Fingerprint : Type 0 where
  pub count : ℕ
  pub newest : Option ℕ

abbrev later : ℕ → Option ℕ → Option ℕ
later a none = some a
later a (some b) = if ltb b a then some a else some b

fingerprint_from : List Ticket → Fingerprint → Fingerprint
fingerprint_from [] f = f
fingerprint_from (t ∷ ts) f = fingerprint_from ts (
    if includes "blocked" t.labels
    then f
    else record { count = suc f.count; newest = later t.updated_at f.newest })

unfoldable pub backlog_fingerprint : Db → String → Fingerprint
unfolding fingerprint_from
backlog_fingerprint db project_id =
    fingerprint_from (filter (is_row_in project_id backlog) db.tickets)
      record { count = 0; newest = none }
