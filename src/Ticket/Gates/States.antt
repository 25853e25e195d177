-- ===== src/Ticket/Gates/States.antt =====
-- The gates on the state that a ticket enters or leaves: hub/src/ticketwrite.ts.
use dev_loop.Common.{
  String, Bool, true, false, ◌&&◌, ◌||◌, not, Option, none, some, List, [], ◌∷◌, ◌++◌, ◌==◌, map,
  filter, find, head?, includes, if◌then◌else◌, ◌or_else◌, is_nil, is_some,
}
use dev_loop.Common.Text.{strip_prefix}
use dev_loop.Store.{
  State, done, canceled, same_state, WaitingOn, Project, Db, find_project, actor_is_human,
}
use dev_loop.Ticket.Env.{
  HumanBlockedMode, off, on, Env, Rejection, human_blocked_is_off, terminal_exit, staging_deploy,
}
use dev_loop.Ticket.Labels.{is_human_blocked}
use dev_loop.Ticket.Handoff.{is_handoff}

-- `TicketUpdateFields`: the merged values of the next row.
pub record TicketFields : Type 0 where
  pub title : String
  pub description : String
  pub type : String
  pub state : State
  pub assignee : Option String
  pub priority : dev_loop.Common.ℕ
  pub labels : List String
  pub duplicate_of : Option String
  pub related_to : List String
  pub waiting_on : Option WaitingOn

-- What a gate says: it refuses, or it lets the write through and no later gate is asked.
pub data Decision : Type 0 where
  decided : Decision
  refused : Rejection → Decision

unfoldable pub human_blocked_mode_for : Env → Db → String → HumanBlockedMode
human_blocked_mode_for env db project_id = elim env.workspace [
  | none ↦ on
  | some ws ↦ elim (find_project db project_id) [
    | none ↦ on
    | some p ↦ if ws.has_project p.key then ws.human_blocked p.key else on
  ]
]

abbrev pub is_off : HumanBlockedMode → Bool
is_off off = true
is_off on = false

unfoldable pub human_blocked_entry_rejection :
    Env → Db → String → String → State → State → Option Rejection
human_blocked_entry_rejection env db project_id actor from to =
    if not (is_human_blocked to)
      || is_human_blocked from
      || actor_is_human db actor
      || not (is_off (human_blocked_mode_for env db project_id))
    then none
    else some (human_blocked_is_off actor)

-- `TERMINAL_STATES` of the write layer: Duplicate is not one of them.
abbrev pub is_closed : State → Bool
is_closed done = true
is_closed canceled = true
is_closed _ = false

unfoldable pub terminal_exit_rejection : String → State → State → Option Rejection
terminal_exit_rejection actor from to =
    if same_state to from || not (is_closed from) || actor == "operator"
    then none
    else some (terminal_exit from to)

-- The name behind the first label `repo:<name>`.
unfoldable pub repo_label : List String → Option String
repo_label [] = none
repo_label (l ∷ ls) = strip_prefix "repo:" l or_else repo_label ls

abbrev pub repo_deploys : Project → Option String → Bool
repo_deploys p none = p.has_deploy
repo_deploys p (some ref) = includes ref p.deploy_repos

unfoldable pub staging_deploy_rejection :
    Db → String → State → State → List String → Option Rejection
unfolding repo_label
staging_deploy_rejection db project_id from to labels = elim (find_project db project_id) [
  | none ↦ none
  | some p ↦
      if not (is_handoff from to)
        || not p.require_deploy_before_review
        || not (repo_deploys p (repo_label labels))
        || includes "env:dev" labels
      then none
      else some staging_deploy
]
