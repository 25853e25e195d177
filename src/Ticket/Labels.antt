-- ===== src/Ticket/Labels.antt =====
-- The labels that a write derives: owners, the tier, the bail shape; and the column `waiting_on`.
pub mod Laws
pub mod Tiers
use dev_loop.Common.{
  String, Bool, true, false, not, ◌&&◌, ◌||◌, Option, none, some, List, [], ◌∷◌, ◌++◌, map, ◌==◌,
  any, filter, includes, dedup, ltb, if◌then◌else◌, get_or,
}
use dev_loop.Store.{
  State, human_blocked, todo, same_state, WaitingOn, human_decision, Db, Comment, actor_exists,
}
use dev_loop.Bail.{BailShape, token, is_bail_label, latest_bail_shape}
use dev_loop.Ticket.Env.{Rejection, ambiguous_tier}

-- `VERIFIER_OWNER_LABELS.has(l)`.
abbrev pub is_owner_label : String → Bool
is_owner_label l = l == "qa" || l == "pm"

unfoldable pub owner_labels_of : List String → List String
owner_labels_of labels = dedup (filter is_owner_label labels)

pub record Retier : Type 0 where
  pub assignee : Option String
  pub labels : List String
  pub retiered : Bool

abbrev pub is_handle : String → Option String → Bool
is_handle h none = false
is_handle h (some a) = a == h

-- `junior-dev` becomes `senior-dev` in a label set.
abbrev pub promote : String → String
promote l = if l == "junior-dev" then "senior-dev" else l

unfoldable pub apply_sensitive_retier : Db → Option String → List String → Retier
apply_sensitive_retier db assignee labels =
    let unchanged : Retier = record { assignee = assignee; labels = labels; retiered = false } in
    let is_junior = is_handle "junior-dev" assignee || includes "junior-dev" labels in
    if not (includes "sensitive" labels)
    then unchanged
    else if not is_junior || not (actor_exists db "senior-dev")
    then unchanged
    else record {
      assignee = some "senior-dev";
      labels = dedup (map promote labels);
      retiered = true;
    }

-- What a restore answers: the assignee, with the tier it was restored to, or the refusal.
pub data Restore : Type 0 where
  kept : Restore
  restored : (to : String) → Restore
  rejected : Rejection → Restore

abbrev pub is_dev_tier : String → Bool
is_dev_tier l = l == "junior-dev" || l == "senior-dev"

restore_from : List String → Restore
restore_from [] = kept
restore_from (l ∷ []) = restored l
restore_from (l ∷ m ∷ ls) = rejected (ambiguous_tier (l ∷ m ∷ ls))

unfoldable pub apply_tier_restore : State → Option String → List String → Restore
unfolding restore_from
apply_tier_restore todo none labels = restore_from (filter is_dev_tier labels)
apply_tier_restore _ _ labels = kept

abbrev pub assignee_after : Restore → Option String → Option String
assignee_after (restored to) a = some to
assignee_after _ a = a

abbrev pub is_human_blocked : State → Bool
is_human_blocked human_blocked = true
is_human_blocked _ = false

abbrev pub from_human_blocked : Option State → Bool
from_human_blocked none = false
from_human_blocked (some s) = is_human_blocked s

abbrev pub waiting_on_default : WaitingOn
waiting_on_default = human_decision

unfoldable pub waiting_on_for : State → Option WaitingOn → Option State → Option WaitingOn
waiting_on_for to requested from =
    if is_human_blocked to
    then (if from_human_blocked from then requested else some (get_or requested waiting_on_default))
    else if from_human_blocked from
    then none
    else requested

-- `ORDER BY created_at, rowid`: a stable sort of the rows in the order of their insertion.
unfoldable pub insert_by_time : Comment → List Comment → List Comment
insert_by_time c [] = c ∷ []
insert_by_time c (d ∷ ds) =
    let rest = insert_by_time c ds in if ltb d.created_at c.created_at then d ∷ rest else c ∷ d ∷ ds

unfoldable pub order_by_time : List Comment → List Comment
unfolding insert_by_time
order_by_time [] = []
order_by_time (c ∷ cs) = insert_by_time c (order_by_time cs)

abbrev pub is_comment_of : String → Comment → Bool
is_comment_of ticket_id c = c.ticket_id == ticket_id

abbrev pub body_of : Comment → String
body_of c = c.body

unfoldable pub latest_bail_shape_of : List Comment → String → Option BailShape
unfolding order_by_time
latest_bail_shape_of comments ticket_id =
    latest_bail_shape (map body_of (order_by_time (filter (is_comment_of ticket_id) comments)))

-- Does a label stay: it is no bail label, or it is the target's.
abbrev pub is_target : Option BailShape → String → Bool
is_target none l = false
is_target (some b) l = l == token b

abbrev pub stays : Option BailShape → String → Bool
stays target l = not (is_bail_label l) || is_target target l

-- Drop the bail labels that are not the target's, and append the target's where it is absent.
unfoldable pub project_label : Option BailShape → List String → List String
project_label none labels = filter (stays none) labels
project_label (some b) labels =
    let kept = filter (stays (some b)) labels in
    if includes (token b) kept then kept else kept ++ token b ∷ []

unfoldable pub reconcile_bail_shape_labels : List Comment → String → List String → List String
reconcile_bail_shape_labels comments ticket_id labels =
    let is_blocked = includes "blocked" labels in
    let target = if is_blocked then latest_bail_shape_of comments ticket_id else none in
    if not is_blocked && not (any is_bail_label labels) then labels else project_label target labels
