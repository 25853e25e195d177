-- ===== src/Ticket/Comments.antt =====
-- `insertComment`, the policy on rulings, and the board's form: hub/src/ticketwrite.ts.
pub mod Authors
use dev_loop.Common.{
  ℕ, String, Bool, ◌&&◌, ◌||◌, not, Option, none, some, [], ◌∷◌, ◌++◌, ◌==◌, includes,
  if◌then◌else◌, is_some, same_texts,
}
use dev_loop.Common.Text.{is_empty, trim}
use dev_loop.Store.{
  Ticket, Comment, issue_ruling, comment_add, Db, find_ticket, update_ticket, actor_is_human,
  log_event,
}
use dev_loop.Bail.{BailShape, parse_bail_shape}
use dev_loop.Ticket.Env.{Env, Rejection, body_required, no_such_ticket, agent_ruling}
use dev_loop.Ticket.Labels.{is_human_blocked, project_label}
use dev_loop.Ticket.Rulings.{ParsedRuling, Parsed, no_ruling, malformed, parsed, parse_ruling}
use dev_loop.Ticket.Gates.States.{human_blocked_mode_for, is_off}
use dev_loop.Ticket.Update.{Write, ok, err}

-- The label that a comment's bail shape sets on a blocked ticket, where it changes the set.
unfoldable pub shape_row : BailShape → ℕ → Ticket → Ticket
unfolding same_texts
shape_row shape now t =
    let labels = project_label (some shape) t.labels in
    if not (includes "blocked" t.labels) || same_texts labels t.labels
    then t
    else record t { labels = labels; updated_at = now }

unfoldable pub project_shape : Env → Db → String → String → Option BailShape → Db
project_shape env db project_id ticket_id none = db
project_shape env db project_id ticket_id (some shape) =
    update_ticket db project_id ticket_id (shape_row shape env.now)

abbrev pub new_comment : Env → String → String → String → Comment
new_comment env actor ticket_id body = record {
  id = env.uuid;
  ticket_id = ticket_id;
  author = actor;
  body = body;
  created_at = env.now;
}

-- `insertComment`: the row, its event, and the label that its bail shape sets.
unfoldable pub insert_comment : Env → Db → String → String → String → String → Db
unfolding project_shape
insert_comment env db project_id actor ticket_id body =
    let written = record db {
      comments = db.comments ++ new_comment env actor ticket_id body ∷ [];
    } in
    project_shape env (log_event env.fire env.now written project_id ticket_id actor comment_add)
      project_id ticket_id (parse_bail_shape body)

-- `rulingCommentPolicy`: no ruling, a refusal with its status, or a ruling that may be recorded.
pub data Policy : Type 0 where
  allowed : Option ParsedRuling → Policy
  denied : ℕ → Rejection → Policy

-- May this actor rule: a human, or `pm` in a project where nothing waits for a human.
unfoldable pub may_rule : Env → Db → String → String → Bool
may_rule env db project_id actor =
    actor == "pm" && is_off (human_blocked_mode_for env db project_id) || actor_is_human db actor

unfoldable pub policy_of : Env → Db → String → String → Parsed → Policy
unfolding may_rule
policy_of env db project_id actor no_ruling = allowed none
policy_of env db project_id actor (malformed r) = denied 400 r
policy_of env db project_id actor (parsed ruling) =
    if may_rule env db project_id actor
    then allowed (some ruling)
    else denied 403 (agent_ruling actor)

unfoldable pub ruling_comment_policy : Env → Db → String → String → String → Policy
unfolding policy_of
ruling_comment_policy env db project_id actor body =
    policy_of env db project_id actor (parse_ruling body)

abbrev pub clear_wait : ℕ → Ticket → Ticket
clear_wait now t = record t { waiting_on = none; updated_at = now }

abbrev pub waits : Ticket → Bool
waits t = is_human_blocked t.state && is_some t.waiting_on

unfoldable pub record_ruling_on :
    Env → Db → String → String → String → ParsedRuling → Option Ticket → Db
record_ruling_on env db project_id actor id ruling none =
    log_event env.fire env.now db project_id id actor (issue_ruling ruling.verdict none none)
record_ruling_on env db project_id actor id ruling (some t) =
    if waits t
    then log_event env.fire env.now (update_ticket db project_id id (clear_wait env.now)) project_id
        id actor (issue_ruling ruling.verdict (some t.state) t.waiting_on)
    else log_event env.fire env.now db project_id id actor
        (issue_ruling ruling.verdict (some t.state) none)

unfoldable pub record_ruling : Env → Db → String → String → String → ParsedRuling → Db
unfolding record_ruling_on
record_ruling env db project_id actor id ruling =
    record_ruling_on env db project_id actor id ruling (find_ticket db project_id id)

unfoldable pub add_allowed : Env → Db → String → String → String → String → Policy → Write
add_allowed env db project_id actor id body (denied status r) = err status r
add_allowed env db project_id actor id body (allowed none) =
    ok (insert_comment env db project_id actor id body) id
add_allowed env db project_id actor id body (allowed (some ruling)) =
    ok
      (record_ruling env (insert_comment env db project_id actor id body) project_id actor id
        ruling)
      id

-- `addComment`: the board's form.
unfoldable pub add_comment : Env → Db → String → String → String → String → Write
unfolding add_allowed
add_comment env db project_id actor id body =
    if not (is_some (find_ticket db project_id id))
    then err 404 (no_such_ticket id)
    else if is_empty (trim body)
    then err 400 body_required
    else add_allowed env db project_id actor id body
        (ruling_comment_policy env db project_id actor body)
