-- ===== src/Ticket/Update.antt =====
-- `updateTicketRow`, and the board's move and assignment that go through it:
-- hub/src/ticketwrite.ts. A write returns the store after it, or the refusal that its caller gets; a
-- refused write has changed nothing.
pub mod Accepted
pub mod Closing
pub mod Frame
use dev_loop.Common.{
  ℕ, String, Bool, true, false, ◌&&◌, ◌||◌, not, Option, none, some, List, [], ◌∷◌, ◌++◌, ◌==◌, map,
  any, filter, find, includes, if◌then◌else◌, get_or, is_some, same_texts,
}
use dev_loop.Common.Text.{is_empty, trim}
use dev_loop.Store.{
  State, todo, human_blocked, same_state, state_of_name, WaitingOn, Ticket, Comment, Verdict, Event,
  EventData, issue_create, issue_transition, issue_update, issue_retier, issue_restore,
  issue_ruling, comment_add, Db, find_ticket, update_ticket, actor_exists, actor_is_human,
  next_ticket_id, log_event,
}
use dev_loop.Ticket.Env.{
  Env, Rejection, title_required, body_required, no_such_ticket, invalid_state, unknown_assignee,
  unknown_project, id_taken, agent_ruling,
}
use dev_loop.Ticket.Labels.{
  assignee_after, Retier, apply_sensitive_retier, Restore, kept, restored, rejected,
  apply_tier_restore, is_human_blocked, waiting_on_for, project_label, reconcile_bail_shape_labels,
}
use dev_loop.Ticket.Gates.States.{
  TicketFields, Decision, decided, refused, human_blocked_mode_for, is_off,
}
use dev_loop.Ticket.Gates.Chain.{gates}
use dev_loop.Ticket.Gates.Designs.{design_rows}

-- `WriteResult`, with the store; `thrown` is an exception, which the caller's transaction undoes.
pub data Write : Type 0 where
  ok : Db → String → Write
  err : ℕ → Rejection → Write
  thrown : Rejection → Write

-- The row that an update starts from.
abbrev pub fields_of : Ticket → TicketFields
fields_of t = record {
  title = t.title;
  description = t.description;
  type = t.type;
  state = t.state;
  assignee = t.assignee;
  priority = t.priority;
  labels = t.labels;
  duplicate_of = t.duplicate_of;
  related_to = t.related_to;
  waiting_on = t.waiting_on;
}

-- The columns that `UPDATE tickets SET …` writes.
abbrev pub write_row : TicketFields → List String → Option WaitingOn → ℕ → Ticket → Ticket
write_row f labels waiting now t = record t {
  title = f.title;
  description = f.description;
  type = f.type;
  state = f.state;
  assignee = f.assignee;
  priority = f.priority;
  labels = labels;
  duplicate_of = f.duplicate_of;
  related_to = f.related_to;
  waiting_on = waiting;
  updated_at = now;
}

-- The two optional events behind the first one of a write.
unfoldable pub log_tier : Env → String → String → String → Retier → Restore → Db → Db
log_tier env project_id id actor retier restore db =
    let log = λ (d : Db) (e : EventData). log_event env.fire env.now d project_id id actor e in
    let db' = if retier.retiered then log db (issue_retier "junior-dev" "senior-dev") else db in
    elim restore [ kept ↦ db' | restored to ↦ log db' (issue_restore to) | rejected r ↦ db' ]

-- The values of the row once the tier is restored and a sensitive ticket is moved up.
abbrev pub resolve : TicketFields → Retier → TicketFields
resolve next retier = record next { assignee = retier.assignee; labels = retier.labels }

abbrev pub stored_labels_of : Option Ticket → List String
stored_labels_of none = []
stored_labels_of (some t) = t.labels

-- The store after an update that no gate refused.
unfoldable pub commit_update :
    Env → Db → String → String → String → State → TicketFields → Retier → Restore → Db
unfolding log_tier
commit_update env db project_id actor id from r retier restore =
    let labels = reconcile_bail_shape_labels db.comments id r.labels in
    let waiting = waiting_on_for r.state r.waiting_on (some from) in
    let written = update_ticket db project_id id (write_row r labels waiting env.now) in
    let event =
      if same_state r.state from then issue_update else issue_transition from r.state r.assignee in
    log_tier env project_id id actor retier restore
      (log_event env.fire env.now written project_id id actor event)

-- What the gates leave: the write, or the refusal.
unfoldable pub after_gates : Option Decision → Db → String → Write
after_gates none db id = ok db id
after_gates (some decided) db id = ok db id
after_gates (some (refused r)) db id = err 400 r

update_tiered : Env → Db → String → String → String → State → TicketFields → Restore → Write
unfolding after_gates
update_tiered env db project_id actor id from next (rejected r) = err 400 r
update_tiered env db project_id actor id from next restore =
    let retier = apply_sensitive_retier db (assignee_after restore next.assignee) next.labels in
    let r = resolve next retier in
    let stored = stored_labels_of (find_ticket db project_id id) in
    after_gates (gates env db project_id actor id from r stored)
      (commit_update env db project_id actor id from r retier restore) id

unfoldable pub update_ticket_row :
    Env → Db → String → String → String → State → TicketFields → Write
unfolding update_tiered
update_ticket_row env db project_id actor id from next =
    update_tiered env db project_id actor id from next
      (apply_tier_restore next.state next.assignee next.labels)

move_row : Env → Db → String → String → String → State → Option Ticket → Write
move_row env db project_id actor id to none = err 404 (no_such_ticket id)
move_row env db project_id actor id to (some t) =
    update_ticket_row env db project_id actor id t.state (record (fields_of t) { state = to })

move_to : Env → Db → String → String → String → String → Option State → Write
unfolding move_row
move_to env db project_id actor id name none = err 400 (invalid_state name)
move_to env db project_id actor id name (some to) =
    move_row env db project_id actor id to (find_ticket db project_id id)

-- `moveTicket`: a state given by its name.
unfoldable pub move_ticket : Env → Db → String → String → String → String → Write
unfolding move_to
move_ticket env db project_id actor id to_state =
    move_to env db project_id actor id to_state (state_of_name to_state)

-- An empty handle unassigns.
abbrev pub assignee_of : String → Option String
assignee_of raw = if is_empty raw then none else some raw

assign_row : Env → Db → String → String → String → String → Option Ticket → Write
assign_row env db project_id actor id raw none = err 404 (no_such_ticket id)
assign_row env db project_id actor id raw (some t) =
    if not (is_empty raw) && not (actor_exists db raw)
    then err 400 (unknown_assignee raw)
    else update_ticket_row env db project_id actor id t.state
        (record (fields_of t) { assignee = assignee_of raw })

-- `assignTicket`.
unfoldable pub assign_ticket : Env → Db → String → String → String → String → Write
unfolding assign_row
assign_ticket env db project_id actor id assignee =
    assign_row env db project_id actor id (trim assignee) (find_ticket db project_id id)
