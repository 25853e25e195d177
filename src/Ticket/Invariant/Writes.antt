-- ===== src/Ticket/Invariant/Writes.antt =====
-- Every accepted update and insertion keeps what holds of every row.
use dev_loop.Common.{String, true, some, ◌≡◌, arith, eq_iff}
use dev_loop.Store.{Ticket, Db, State, log_event, update_ticket, is_row, actor_exists}
use dev_loop.Ticket.Env.{Env}
use dev_loop.Ticket.Labels.{
  Retier, Restore, kept, restored, rejected, apply_sensitive_retier, apply_tier_restore,
  assignee_after, reconcile_bail_shape_labels, waiting_on_for,
}
use dev_loop.Ticket.Labels.Tiers.{retier-NotJunior, settled_NoTier, NotRejected}
use dev_loop.Ticket.Gates.States.{TicketFields}
use dev_loop.Ticket.Update.{ok, log_tier, commit_update, resolve, write_row, update_ticket_row}
use dev_loop.Ticket.Update.Accepted.{update_commits}
use dev_loop.Ticket.Invariant.{RowOk, BoardOk, reconciled-RowOk, All-update_rows}

-- The tables that a write's events leave as they were.
pub record SameTables (a b : Db) : Type 0 where
  pub tickets : a.tickets ≡ b.tickets
  pub comments : a.comments ≡ b.comments
  pub actors : a.actors ≡ b.actors

pub log_tier-SameTables :
    (env : Env) (project_id id actor : String) (retier : Retier) (restore : Restore) (db : Db)
    → SameTables (log_tier env project_id id actor retier restore db) db
unfolding log_tier log_event
log_tier-SameTables env project_id id actor retier kept db = ground arith
log_tier-SameTables env project_id id actor retier (restored to) db = ground arith
log_tier-SameTables env project_id id actor retier (rejected r) db = ground arith

pub BoardOk_of_SameTables : (a b : Db) → SameTables a b → BoardOk b → BoardOk a
unfolding actor_exists
BoardOk_of_SameTables a b s h = rw (s.tickets, s.comments, s.actors) h

-- The columns of the row that a tiered update writes.
module _ (env : Env) (db : Db) (project_id actor id : String) (from : State)
    (next : TicketFields) where
  abbrev pub restore : Restore
  restore = apply_tier_restore next.state next.assignee next.labels

  abbrev pub retier : Retier
  retier = apply_sensitive_retier db (assignee_after restore next.assignee) next.labels

  abbrev pub row_after : Ticket → Ticket
  row_after =
      write_row (resolve next retier) (reconcile_bail_shape_labels db.comments id retier.labels)
        (waiting_on_for next.state next.waiting_on (some from)) env.now

  pub commit-SameTables :
      SameTables
        (commit_update env db project_id actor id from (resolve next retier) retier restore)
        (update_ticket db project_id id row_after)
  unfolding commit_update log_event
  commit-SameTables =
      let s = log_tier-SameTables env project_id id actor retier restore _ in
      record { tickets = s.tickets; comments = s.comments; actors = s.actors }

  row_after-RowOk :
      (t : Ticket)
      → NotRejected restore
      → is_row project_id id t ≡ true
      → RowOk db.comments (actor_exists db "senior-dev") (row_after t)
  row_after-RowOk t n hit =
      let same : t.id ≡ id = ground (arith, eq_iff t.id id) in
      reconciled-RowOk db.comments (actor_exists db "senior-dev") (row_after t) retier.labels
        (rw same)
        (λ s h. retier-NotJunior db (assignee_after restore next.assignee) next.labels s h)
        (settled_NoTier db next.state next.assignee next.labels n)

  commit-BoardOk :
      NotRejected restore
      → BoardOk db
      → BoardOk (commit_update env db project_id actor id from (resolve next retier) retier restore)
  unfolding update_ticket actor_exists
  commit-BoardOk n h = BoardOk_of_SameTables _ _ commit-SameTables (
      All-update_rows _ (is_row project_id id) row_after db.tickets
        (λ t hit _. row_after-RowOk t n hit) h)

-- Every accepted update, by anyone and of any ticket, keeps what holds of every row.
pub update_ticket_row-BoardOk :
    (env : Env) (db : Db) (project_id actor id : String) (from : State) (next : TicketFields)
    {db' : Db} {id' : String}
    → update_ticket_row env db project_id actor id from next ≡ ok db' id'
    → BoardOk db
    → BoardOk db'
update_ticket_row-BoardOk env db project_id actor id from next accepted h =
    let (n, e) = update_commits env db project_id actor id from next accepted in
    rw (← e) (commit-BoardOk env db project_id actor id from next n h)
