-- ===== src/Ticket/Invariant/Inserts.antt =====
-- Every accepted insertion keeps what holds of every row.
use dev_loop.Common.{
  String, Bool, true, false, Option, none, some, List, [], ◌∷◌, ◌++◌, ◌≡◌, refl, ◌∙◌, ap, arith,
  All-append, sym, any, includes, if◌then◌else◌,
}
use dev_loop.Store.{Ticket, Db, todo, log_event, actor_exists, next_ticket_id}
use dev_loop.Ticket.Env.{Env, Rejection}
use dev_loop.Ticket.Labels.{
  Retier, Restore, kept, restored, rejected, apply_sensitive_retier, apply_tier_restore,
  assignee_after, reconcile_bail_shape_labels,
}
use dev_loop.Ticket.Labels.Tiers.{retier-NotJunior, settled_NoTier, NotRejected, NotJunior, NoTier}
use dev_loop.Ticket.Update.{ok, thrown}
use dev_loop.Ticket.Insert.{
  NewTicket, insert_row, insert_tiered, insert_ticket, new_row, inherit_sensitive, has_id,
}
use dev_loop.Ticket.Invariant.{RowOk, BoardOk, reconciled-RowOk}
use dev_loop.Ticket.Invariant.Writes.{SameTables, log_tier-SameTables, BoardOk_of_SameTables}

thrown_or_ok :
    (b : Bool) (r : Rejection) (db db' : Db) (id id' : String)
    → (if b then thrown r else ok db id) ≡ ok db' id'
    → (b ≡ false) × (db ≡ db') × (id ≡ id')
thrown_or_ok true r db db' id id' h = absurd (cc)
thrown_or_ok false r db db' id id' h = ground arith

module _ (env : Env) (project_id actor : String) (f : NewTicket)
    (fields : List (String × String)) where
  abbrev pub inserted : Retier → String → Db → Ticket
  inserted r id db =
      new_row env id project_id actor f r (reconcile_bail_shape_labels db.comments id r.labels)

  -- The store with the new row, before its events.
  abbrev pub with_row : Retier → String → Db → Db
  with_row r id db = record db { tickets = db.tickets ++ inserted r id db ∷ [] }

  -- What an accepted insertion shows: the id was free, and the tables are those with the new row.
  pub insert_row-eq-ok :
      (r : Retier) (restore : Restore) (id : String) (db db' : Db) (id' : String)
      → insert_row env project_id actor f fields r restore (some (id, db)) ≡ ok db' id'
      → (any (has_id id) db.tickets ≡ false) × (id ≡ id') × SameTables db' (with_row r id db)
  unfolding insert_row log_event
  insert_row-eq-ok r restore id db db' id' h =
      let (free, e, i) = thrown_or_ok _ _ _ _ _ _ h in
      let s = log_tier-SameTables env project_id id actor r restore _ in
      let same : SameTables db' (with_row r id db) =
        rw (← e) (record { tickets = s.tickets; comments = s.comments; actors = s.actors }) in
      (free, i, same)

  insert_row-BoardOk :
      (r : Retier) (restore : Restore) (id : String) (db db' : Db) (id' : String)
      → (actor_exists db "senior-dev" ≡ true
          → includes "sensitive" r.labels ≡ true
          → NotJunior r.assignee r.labels)
      → (f.state ≡ todo → r.assignee ≡ none → NoTier r.labels)
      → insert_row env project_id actor f fields r restore (some (id, db)) ≡ ok db' id'
      → BoardOk db
      → BoardOk db'
  unfolding actor_exists
  insert_row-BoardOk r restore id db db' id' tier settled accepted h =
      let (free, i, same) = insert_row-eq-ok r restore id db db' id' accepted in
      let row =
        reconciled-RowOk db.comments (actor_exists db "senior-dev") (inserted r id db) r.labels refl
          tier settled in
      BoardOk_of_SameTables db' (with_row r id db) same (
        All-append (RowOk db.comments (actor_exists db "senior-dev")) db.tickets
          (inserted r id db ∷ []) h (row, tt))

-- The counter moves, and the tables that the rows are judged by stay.
next_ticket_id-SameTables :
    (db : Db) (project_id id : String) (db' : Db)
    → next_ticket_id db project_id ≡ some (id, db')
    → SameTables db' db
unfolding next_ticket_id
next_ticket_id-SameTables db project_id id db' h = ground arith

pub actor_exists_same :
    (a b : Db) (handle : String) → SameTables a b → actor_exists a handle ≡ actor_exists b handle
unfolding actor_exists
actor_exists_same a b handle s = rw (s.actors)

module _ (env : Env) (db : Db) (project_id actor : String) (f : NewTicket)
    (fields : List (String × String)) (labels : List String) (db' : Db) (id' : String) where
  abbrev tiered_at : Restore → Retier
  tiered_at restore = apply_sensitive_retier db (assignee_after restore f.assignee) labels

  tiered-eq-ok :
      (restore : Restore)
      → insert_tiered env db project_id actor f fields labels restore ≡ ok db' id'
      → NotRejected restore
        × (insert_row env project_id actor f fields
              (tiered_at restore)
              restore
              (next_ticket_id db project_id)
            ≡ ok db' id')
  unfolding insert_tiered
  tiered-eq-ok (rejected r) h = absurd (cc)
  tiered-eq-ok kept h = (tt, h)
  tiered-eq-ok (restored to) h = (tt, h)

  abbrev restore_of : Restore
  restore_of = apply_tier_restore f.state f.assignee labels

  numbered-BoardOk :
      (o : Option (String × Db))
      → next_ticket_id db project_id ≡ o
      → NotRejected restore_of
      → insert_row env project_id actor f fields (tiered_at restore_of) restore_of o ≡ ok db' id'
      → BoardOk db
      → BoardOk db'
  unfolding insert_row
  numbered-BoardOk none e n at h = absurd (cc)
  numbered-BoardOk (some (id, db1)) e n at h =
      let same = next_ticket_id-SameTables db project_id id db1 e in
      insert_row-BoardOk env project_id actor f fields (tiered_at restore_of) restore_of id db1 db'
        id'
        (λ senior.
          retier-NotJunior db (assignee_after restore_of f.assignee) labels
            (sym (actor_exists_same db1 db "senior-dev" same) ∙ senior))
        (settled_NoTier db f.state f.assignee labels n) at (BoardOk_of_SameTables db1 db same h)

-- Every accepted insertion keeps what holds of every row.
pub insert_ticket-BoardOk :
    (env : Env) (db : Db) (project_id actor : String) (f : NewTicket)
    (fields : List (String × String)) {db' : Db} {id' : String}
    → insert_ticket env db project_id actor f fields ≡ ok db' id'
    → BoardOk db
    → BoardOk db'
unfolding insert_ticket
insert_ticket-BoardOk env db project_id actor f fields {db'} {id'} accepted h =
    let labels = inherit_sensitive db project_id f.description f.labels f.related_to in
    let (n, at) =
      tiered-eq-ok env db project_id actor f fields labels db' id'
        (apply_tier_restore f.state f.assignee labels) accepted in
    numbered-BoardOk env db project_id actor f fields labels db' id' (next_ticket_id db project_id)
      refl n at h

numbered-row :
    (env : Env) (db : Db) (project_id actor : String) (f : NewTicket)
    (fields : List (String × String)) (r : Retier) (restore : Restore) (db' : Db) (id' : String)
    (o : Option (String × Db))
    → next_ticket_id db project_id ≡ o
    → insert_row env project_id actor f fields r restore o ≡ ok db' id'
    → (any (has_id id') db.tickets ≡ false)
      × (row : Ticket) × (row.id ≡ id')
      × (db'.tickets ≡ db.tickets ++ row ∷ [])
      × (db'.comments ≡ db.comments)
unfolding insert_row
numbered-row env db project_id actor f fields r restore db' id' none e h = absurd (cc)
numbered-row env db project_id actor f fields r restore db' id' (some (id, db1)) e h =
    let same = next_ticket_id-SameTables db project_id id db1 e in
    let (free, i, tables) =
      insert_row-eq-ok env project_id actor f fields r restore id db1 db' id' h in
    let row = inserted env project_id actor f fields r id db1 in
    (
      rw (← i, ← same.tickets) free,
      row,
      i,
      tables.tickets ∙ ap (λ ts. ts ++ row ∷ []) same.tickets,
      tables.comments ∙ same.comments,
    )

pub insert_ticket-row :
    (env : Env) (db : Db) (project_id actor : String) (f : NewTicket)
    (fields : List (String × String)) {db' : Db} {id' : String}
    → insert_ticket env db project_id actor f fields ≡ ok db' id'
    → (any (has_id id') db.tickets ≡ false)
      × (row : Ticket) × (row.id ≡ id')
      × (db'.tickets ≡ db.tickets ++ row ∷ [])
      × (db'.comments ≡ db.comments)
unfolding insert_ticket
insert_ticket-row env db project_id actor f fields {db'} {id'} accepted =
    let labels = inherit_sensitive db project_id f.description f.labels f.related_to in
    let (n, at) =
      tiered-eq-ok env db project_id actor f fields labels db' id'
        (apply_tier_restore f.state f.assignee labels) accepted in
    numbered-row env db project_id actor f fields
      (tiered_at env db project_id actor f fields labels db' id'
        (apply_tier_restore f.state f.assignee labels))
      (apply_tier_restore f.state f.assignee labels) db' id' (next_ticket_id db project_id) refl at
