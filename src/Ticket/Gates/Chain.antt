-- ===== src/Ticket/Gates/Chain.antt =====
-- What the gates behind them read, and the chain of all: hub/src/ticketwrite.ts.
use dev_loop.Common.{
  String, Bool, true, false, ◌&&◌, ◌||◌, not, Option, none, some, List, [], ◌∷◌, ◌++◌, ◌==◌, find,
  head?, includes, if◌then◌else◌, ◌or_else◌, is_nil,
}
use dev_loop.Common.Text.{append}
use dev_loop.Store.{
  State, backlog, in_progress, in_review, done, canceled, same_state, WaitingOn, Ticket, Project,
  Db, find_project, actor_is_human,
}
use dev_loop.Ticket.Env.{
  Landing, RepoRef, Workspace, Env, Rejection, done_without_review, not_owner, create_done,
}
use dev_loop.Ticket.Labels.{owner_labels_of}
use dev_loop.Ticket.Handoff.{handoff_gate_rejection}
use dev_loop.Ticket.Acceptance.{ac_completeness_rejection, unlanded_work_rejection, is_done}
use dev_loop.Ticket.Gates.States.{
  TicketFields, Decision, human_blocked_entry_rejection, terminal_exit_rejection,
  staging_deploy_rejection, refused,
}
use dev_loop.Ticket.Gates.Designs.{is_close, design_parent_gate, design_parent_handoff_exemption}

pub record LandingContext : Type 0 where
  pub repo_root : Option String
  pub landing : Option Landing
  pub base_ref : Option String

abbrev pub no_context : LandingContext
no_context = record { repo_root = none; landing = none; base_ref = none }

-- The primary repository, or the first.
primary_repo : List RepoRef → Option RepoRef
primary_repo repos = find (λ r. r.is_primary) repos or_else head? repos

context_of_ref : Workspace → Option RepoRef → LandingContext
context_of_ref ws none = no_context
context_of_ref ws (some r) = elim (ws.effective_repo r.ref) [
  | none ↦ no_context
  | some e ↦ record {
    repo_root = some e.abs_path;
    landing = some e.landing;
    base_ref = some (append "origin/" e.default_branch);
  }
]

unfoldable pub landing_context_for : Env → Db → String → LandingContext
unfolding primary_repo context_of_ref
landing_context_for env db project_id = elim env.workspace [
  | none ↦ no_context
  | some ws ↦ elim (find_project db project_id) [
    | none ↦ no_context
    | some p ↦ context_of_ref ws (primary_repo (ws.repos_of_project p.key))
  ]
]

abbrev pub ac_gate_enabled : Env → Bool
ac_gate_enabled env = elim env.workspace [ none ↦ false | some ws ↦ ws.ac_completeness_gate ]

abbrev pub unlanded_gate_enabled : Env → Bool
unlanded_gate_enabled env = elim env.workspace [ none ↦ false | some ws ↦ ws.unlanded_work_gate ]

comment_bodies_from : String → List dev_loop.Store.Comment → List String
comment_bodies_from id [] = []
comment_bodies_from id (c ∷ cs) =
    let rest = comment_bodies_from id cs in if c.ticket_id == id then c.body ∷ rest else rest

unfoldable pub comment_bodies_for : Db → String → List String
unfolding comment_bodies_from
comment_bodies_for db id = comment_bodies_from id db.comments

abbrev pub is_in_progress : State → Bool
is_in_progress in_progress = true
is_in_progress _ = false

unfoldable pub verify_gate_rejection :
    String → State → State → List String → List String → Option Rejection
verify_gate_rejection actor from to labels stored_labels =
    let owners = owner_labels_of (stored_labels ++ labels) in
    if is_in_progress from && is_done to
    then some done_without_review
    else if is_close from to
        && not (is_nil owners)
        && not (actor == "operator")
        && not (includes actor owners)
    then some (not_owner actor owners)
    else none

unfoldable pub verify_create_gate_rejection : String → State → List String → Option Rejection
verify_create_gate_rejection actor state labels =
    let owners = owner_labels_of labels in
    if not (is_done state) || is_nil owners || actor == "operator" || includes actor owners
    then none
    else some (create_done actor owners)

abbrev pub as_refusal : Option Rejection → Option Decision
as_refusal none = none
as_refusal (some r) = some (refused r)

-- The chain of `??` in `updateTicketRow`.
unfoldable pub gates :
    Env → Db → String → String → String → State → TicketFields → List String → Option Decision
gates env db project_id actor id from next stored_labels =
    let ctx = landing_context_for env db project_id in
    let bodies = comment_bodies_for db id in
    as_refusal (human_blocked_entry_rejection env db project_id actor from next.state)
    or_else as_refusal (terminal_exit_rejection actor from next.state)
    or_else as_refusal (staging_deploy_rejection db project_id from next.state next.labels)
    or_else design_parent_gate db project_id id actor from next
    or_else as_refusal (
        handoff_gate_rejection env.git (record {
          id = id;
          from_state = from;
          to_state = next.state;
          actor = actor;
          repo_root = ctx.repo_root;
          landing = ctx.landing;
          is_design_parent = design_parent_handoff_exemption db project_id id from next;
        }))
    or_else as_refusal (
        ac_completeness_rejection (record {
          description = next.description;
          to_state = next.state;
          from_state = from;
          actor = actor;
          comment_bodies = bodies;
          enabled = ac_gate_enabled env;
        }))
    or_else as_refusal (
        unlanded_work_rejection env.git (record {
          id = id;
          to_state = next.state;
          from_state = from;
          actor = actor;
          comment_bodies = bodies;
          repo_root = ctx.repo_root;
          base_ref = ctx.base_ref;
          enabled = unlanded_gate_enabled env;
        }))
    or_else as_refusal (verify_gate_rejection actor from next.state next.labels stored_labels)
