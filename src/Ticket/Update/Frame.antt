-- ===== src/Ticket/Update/Frame.antt =====
-- What an accepted update writes and what it leaves: hub/src/ticketwrite.ts.
use mathlib.Core.List.{append_assoc, append-nil}
use dev_loop.Common.{
  String, true, false, none, some, List, [], ◌∷◌, ◌++◌, ◌≡◌, refl, ◌∙◌, ap, sym, ◌==◌, eq_iff,
  arith, find, if◌then◌else◌, Bool-cases, inl, inr, is_some, ◌⊎◌, ◌≢◌,
}
use dev_loop.Store.{
  Db, Ticket, State, human_blocked, Event, EventData, issue_update, issue_transition, issue_retier,
  issue_restore, find_ticket, is_row, update_rows, update_ticket, log_event, fire_id, same_state,
}
use dev_loop.Ticket.Env.{Env}
use dev_loop.Ticket.Labels.{
  waiting_on_for, Retier, Restore, kept, restored, rejected, apply_tier_restore,
  apply_sensitive_retier, assignee_after, reconcile_bail_shape_labels,
}
use dev_loop.Ticket.Gates.States.{TicketFields}
use dev_loop.Ticket.Update.{ok, update_ticket_row, commit_update, write_row, log_tier, resolve}
use dev_loop.Ticket.Invariant.Writes.{log_tier-SameTables}
use dev_loop.Ticket.Update.Accepted.{update_commits}

-- A row that is looked up is updated exactly where the update looks it up.
find-update_rows :
    (project_id id other_project other : String) (f : Ticket → Ticket) (ts : List Ticket)
    → ((t : Ticket) → ((f t).id ≡ t.id) × ((f t).project_id ≡ t.project_id))
    → (id == other) ≡ false
    → find (is_row other_project other) (update_rows (is_row project_id id) f ts)
      ≡ find (is_row other_project other) ts
unfolding update_rows
find-update_rows project_id id other_project other f [] k h = refl
find-update_rows project_id id other_project other f (t ∷ ts) k h =
    let rest = find-update_rows project_id id other_project other f ts k h in
    elim (Bool-cases (is_row project_id id t)) [
      | inr miss ↦ rw miss (ap (λ o. if is_row other_project other t then some t else o) rest)
      | inl hit ↦
          let differs : (t.id == other) ≡ false = ground (arith, eq_iff t.id id) in
          rw (hit, (k t).0, differs) rest
    ]

find-updated :
    (project_id id : String) (f : Ticket → Ticket) (ts : List Ticket) (t : Ticket)
    → ((t : Ticket) → ((f t).id ≡ t.id) × ((f t).project_id ≡ t.project_id))
    → find (is_row project_id id) ts ≡ some t
    → find (is_row project_id id) (update_rows (is_row project_id id) f ts) ≡ some (f t)
unfolding update_rows
find-updated project_id id f [] t k h = absurd (cc)
find-updated project_id id f (x ∷ ts) t k h = elim (Bool-cases (is_row project_id id x)) [
  | inr miss ↦ rw (miss, miss) (find-updated project_id id f ts t k (ground arith))
  | inl hit ↦
      let same : x ≡ t = ground arith in
      let still : is_row project_id id (f x) ≡ true = ground (arith, k x) in
      rw (hit, still) (ap (λ y. some (f y)) same)
]

-- The first event of an update.
abbrev pub first_event : State → TicketFields → EventData
first_event from r =
    if same_state r.state from then issue_update else issue_transition from r.state r.assignee

abbrev pub event_at : Env → String → String → String → EventData → Event
event_at env project_id id actor content = record {
  project_id = project_id;
  ticket_id = id;
  actor = actor;
  content = content;
  fire_id = fire_id env.fire;
  created_at = env.now;
}

-- The events of the tier behind it.
abbrev pub tier_events : Env → String → String → String → Retier → Restore → List Event
tier_events env project_id id actor retier restore =
    let moved =
      if retier.retiered
      then event_at env project_id id actor (issue_retier "junior-dev" "senior-dev") ∷ []
      else [] in
    elim restore [
      | kept ↦ moved
      | restored to ↦ moved ++ event_at env project_id id actor (issue_restore to) ∷ []
      | rejected r ↦ moved
    ]

log_tier-events :
    (env : Env) (project_id id actor : String) (retier : Retier) (restore : Restore) (db : Db)
    → (log_tier env project_id id actor retier restore db).events
      ≡ db.events ++ tier_events env project_id id actor retier restore
unfolding log_tier log_event
log_tier-events env project_id id actor retier kept db = elim (Bool-cases retier.retiered) [
  | inl yes_it ↦ rw yes_it refl
  | inr no_it ↦ rw (no_it) (sym (append-nil db.events))
]
log_tier-events env project_id id actor retier (rejected r) db = elim (Bool-cases retier.retiered) [
  | inl yes_it ↦ rw yes_it refl
  | inr no_it ↦ rw (no_it) (sym (append-nil db.events))
]
log_tier-events env project_id id actor retier (restored to) db =
    elim (Bool-cases retier.retiered) [
      | inl yes_it ↦ rw yes_it (append_assoc db.events _ _)
      | inr no_it ↦ rw (no_it) refl
    ]

module _ (env : Env) (db : Db) (project_id actor id : String) (from : State)
    (next : TicketFields) where
  abbrev pub restore : Restore
  restore = apply_tier_restore next.state next.assignee next.labels

  abbrev pub retier : Retier
  retier = apply_sensitive_retier db (assignee_after restore next.assignee) next.labels

  abbrev pub row_after : Ticket → Ticket
  row_after =
      write_row (resolve next retier) (reconcile_bail_shape_labels db.comments id retier.labels)
        (waiting_on_for next.state next.waiting_on (some from)) env.now

  commit-tickets :
      (commit_update env db project_id actor id from (resolve next retier) retier restore).tickets
      ≡ update_rows (is_row project_id id) row_after db.tickets
  unfolding commit_update log_event update_ticket
  commit-tickets = (log_tier-SameTables env project_id id actor retier restore _).tickets

  commit-events :
      (commit_update env db project_id actor id from (resolve next retier) retier restore).events
      ≡ db.events
        ++ event_at env project_id id actor (first_event from (resolve next retier))
          ∷ tier_events env project_id id actor retier restore
  unfolding commit_update log_event update_ticket
  commit-events =
      log_tier-events env project_id id actor retier restore _
      ∙ append_assoc db.events
          (event_at env project_id id actor (first_event from (resolve next retier)) ∷ []) _

  -- An accepted update of a ticket that is there writes that row alone: it takes the new values with
  -- the labels and the assignee of the tier rules, a ticket with another id reads as before, and the
  -- events grow by the transition or the update and by those of the tier.
  pub update_frame :
      (t : Ticket) (other_project other : String) {db' : Db} {id' : String}
      → find_ticket db project_id id ≡ some t
      → (id == other) ≡ false
      → update_ticket_row env db project_id actor id from next ≡ ok db' id'
      → (find_ticket db' project_id id ≡ some (row_after t))
        × (find_ticket db' other_project other ≡ find_ticket db other_project other)
        × (db'.events
            ≡ db.events
              ++ event_at env project_id id actor (first_event from (resolve next retier))
                ∷ tier_events env project_id id actor retier restore)
  unfolding find_ticket
  update_frame t other_project other {db'} {id'} found differs accepted =
      let (n, e) = update_commits env db project_id actor id from next accepted in
      let tickets = sym (ap (λ (d : Db). d.tickets) e) ∙ commit-tickets in
      (
        ap (find (is_row project_id id)) tickets
            ∙ find-updated project_id id row_after db.tickets t (λ t. (refl, refl)) found,
        ap (find (is_row other_project other)) tickets
            ∙ find-update_rows project_id id other_project other row_after db.tickets
                (λ t. (refl, refl)) differs,
        sym (ap (λ (d : Db). d.events) e) ∙ commit-events,
      )

  -- What a ticket waits on after an accepted update: nothing once it has left Human-Blocked,
  -- something once it has entered it, and else what was asked.
  pub update_waits :
      (t : Ticket) {db' : Db} {id' : String}
      → find_ticket db project_id id ≡ some t
      → update_ticket_row env db project_id actor id from next ≡ ok db' id'
      → (t' : Ticket) × (find_ticket db' project_id id ≡ some t')
        × (t'.state ≡ next.state)
        × ((from ≡ human_blocked) × (next.state ≢ human_blocked) × (t'.waiting_on ≡ none)
            ⊎ (from ≢ human_blocked) × (next.state ≡ human_blocked) × (is_some t'.waiting_on ≡ true)
            ⊎ ((same_state from human_blocked ≡ same_state next.state human_blocked)
                × (t'.waiting_on ≡ next.waiting_on)))
  unfolding find_ticket waiting_on_for
  update_waits t {db'} {id'} found accepted =
      let (n, e) = update_commits env db project_id actor id from next accepted in
      let tickets = sym (ap (λ (d : Db). d.tickets) e) ∙ commit-tickets in
      (
        row_after t,
        ap (find (is_row project_id id)) tickets
            ∙ find-updated project_id id row_after db.tickets t (λ t. (refl, refl)) found,
        refl,
        ground arith,
      )
