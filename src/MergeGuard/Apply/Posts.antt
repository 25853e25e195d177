-- ===== src/MergeGuard/Apply/Posts.antt =====
-- What an objection writes among the comments: `applyTrip` of hub/src/merge-guard.ts.
use dev_loop.Common.{
  String, true, false, Option, none, some, List, [], ◌∷◌, ◌++◌, ◌≡◌, ◌⊎◌, inl, inr, refl, ◌∙◌, sym,
  ap, Bool-cases, is_some, not, arith, any, eq_iff,
}
use dev_loop.Common.Text.{is_empty, trim}
use dev_loop.Store.{
  Ticket, Comment, State, Db, find_ticket, update_ticket, log_event, same_state, in_progress, todo,
}
use dev_loop.Bail.{parse_bail_shape, BailShape}
use dev_loop.Ticket.Env.{Env}
use dev_loop.Ticket.Rulings.{ParsedRuling}
use dev_loop.Ticket.Gates.States.{TicketFields}
use dev_loop.Ticket.Update.{Write, ok, err, thrown, fields_of, update_ticket_row}
use dev_loop.Ticket.Update.Accepted.{update_commits}
use dev_loop.Ticket.Invariant.Writes.{commit-SameTables}
use dev_loop.Ticket.Comments.{
  add_comment, add_allowed, Policy, allowed, denied, insert_comment, new_comment, project_shape,
  record_ruling, record_ruling_on, ruling_comment_policy, waits,
}
use dev_loop.MergeGuard.Results.{opened}
use dev_loop.MergeGuard.Tickets.{find_by_id}
use dev_loop.MergeGuard.Apply.{
  TripAxis, on_forge, Action, applied, has_comment, is_posted, store_after, post, route_row, route,
  route_after, applied_with, apply_row, apply_trip,
}

project_shape-comments :
    (env : Env) (db : Db) (project_id id : String) (o : Option BailShape)
    → (project_shape env db project_id id o).comments ≡ db.comments
unfolding project_shape update_ticket
project_shape-comments env db project_id id none = refl
project_shape-comments env db project_id id (some s) = refl

insert_comment-comments :
    (env : Env) (db : Db) (project_id actor id body : String)
    → (insert_comment env db project_id actor id body).comments
      ≡ db.comments ++ new_comment env actor id body ∷ []
unfolding insert_comment log_event
insert_comment-comments env db project_id actor id body =
    project_shape-comments env _ project_id id (parse_bail_shape body)

ruling_on-comments :
    (env : Env) (db : Db) (project_id actor id : String) (r : ParsedRuling) (o : Option Ticket)
    → (record_ruling_on env db project_id actor id r o).comments ≡ db.comments
unfolding record_ruling_on log_event update_ticket
ruling_on-comments env db project_id actor id r none = refl
ruling_on-comments env db project_id actor id r (some t) = elim (Bool-cases (waits t)) [
  | inl waiting ↦ rw waiting refl
  | inr not_waiting ↦ rw not_waiting refl
]

-- The store has the comments of the other, or one comment more.
abbrev pub GrowsBy : Comment → Db → Db → Type 0
GrowsBy c a b = (b.comments ≡ a.comments) ⊎ (b.comments ≡ a.comments ++ c ∷ [])

module _ (env : Env) (db : Db) (project_id actor id body : String) where
  allowed_grows :
      (p : Policy) (db2 : Db)
      → store_after db (add_allowed env db project_id actor id body p) ≡ some db2
      → GrowsBy (new_comment env actor id body) db db2
  unfolding add_allowed store_after record_ruling
  allowed_grows (denied status r) db2 h =
      let e : db ≡ db2 = cc h in inl (ap (λ (d : Db). d.comments) (sym e))
  allowed_grows (allowed none) db2 h =
      let e : insert_comment env db project_id actor id body ≡ db2 = cc h in
      inr (
        ap (λ (d : Db). d.comments) (sym e)
        ∙ insert_comment-comments env db project_id actor id body)
  allowed_grows (allowed (some r)) db2 h =
      let after = insert_comment env db project_id actor id body in
      let e : record_ruling env after project_id actor id r ≡ db2 = cc h in
      inr (
        ap (λ (d : Db). d.comments) (sym e)
        ∙ ruling_on-comments env after project_id actor id r (find_ticket after project_id id)
        ∙ insert_comment-comments env db project_id actor id body)

  refused_same : (db2 : Db) → some db ≡ some db2 → GrowsBy (new_comment env actor id body) db db2
  refused_same db2 h = let e : db ≡ db2 = cc h in inl (ap (λ (d : Db). d.comments) (sym e))

  added_grows :
      (db2 : Db)
      → store_after db (add_comment env db project_id actor id body) ≡ some db2
      → GrowsBy (new_comment env actor id body) db db2
  unfolding add_comment store_after
  added_grows db2 h = elim (Bool-cases (not (is_some (find_ticket db project_id id)))) [
    | inl absent ↦ refused_same db2 (rw absent at h)
    | inr there ↦ elim (Bool-cases (is_empty (trim body))) [
      | inl blank ↦ refused_same db2 (rw blank at (rw there at h))
      | inr text ↦
          allowed_grows (ruling_comment_policy env db project_id actor body) db2
            (rw text at (rw there at h))
    ]
  ]

  -- A comment that is there already is not written again.
  post_grows :
      (db2 : Db)
      → post env db project_id actor id body ≡ some db2
      → (db2.comments ≡ db.comments)
        ⊎ (has_comment db id body ≡ false)
          × (db2.comments ≡ db.comments ++ new_comment env actor id body ∷ [])
  unfolding post
  post_grows db2 h = elim (Bool-cases (has_comment db id body)) [
    | inl there ↦ let e : db ≡ db2 = cc (rw there at h) in inl (ap (λ (d : Db). d.comments) (sym e))
    | inr fresh ↦ elim (added_grows db2 (rw fresh at h)) [
      | inl same ↦ inl same
      | inr more ↦ inr (fresh, more)
    ]
  ]

update_keeps_comments :
    (env : Env) (db : Db) (project_id actor id : String) (from : State) (next : TicketFields)
    (w : Write) (db2 : Db)
    → update_ticket_row env db project_id actor id from next ≡ w
    → store_after db w ≡ some db2
    → db2.comments ≡ db.comments
unfolding store_after update_ticket
update_keeps_comments env db project_id actor id from next (err status r) db2 u h =
    let e : db ≡ db2 = cc h in ap (λ (d : Db). d.comments) (sym e)
update_keeps_comments env db project_id actor id from next (thrown r) db2 u h = absurd (cc h)
update_keeps_comments env db project_id actor id from next (ok db3 id') db2 u h =
    let e : db3 ≡ db2 = cc h in
    let (n, c) = update_commits env db project_id actor id from next u in
    ap (λ (d : Db). d.comments) (sym e)
    ∙ ap (λ (d : Db). d.comments) (sym c)
    ∙ (commit-SameTables env db project_id actor id from next).comments

row_keeps_comments :
    (env : Env) (db : Db) (project_id actor id : String) (o : Option Ticket) (db2 : Db)
    → route_row env db project_id actor id o ≡ some db2
    → db2.comments ≡ db.comments
unfolding route_row
row_keeps_comments env db project_id actor id none db2 h =
    let e : db ≡ db2 = cc h in ap (λ (d : Db). d.comments) (sym e)
row_keeps_comments env db project_id actor id (some t) db2 h =
    elim (Bool-cases (same_state t.state in_progress)) [
      | inl busy ↦ let e : db ≡ db2 = cc (rw busy at h) in ap (λ (d : Db). d.comments) (sym e)
      | inr other ↦
          update_keeps_comments env db project_id actor id t.state
            (record (fields_of t) { state = todo }) _ db2 refl (rw other at h)
    ]

route_keeps_comments :
    (env : Env) (axis : TripAxis) (project_id actor id : String) (db db2 : Db)
    → route env axis project_id actor id db ≡ some db2
    → db2.comments ≡ db.comments
unfolding route
route_keeps_comments env on_forge project_id actor id db db2 h =
    row_keeps_comments env db project_id actor id (find_ticket db project_id id) db2 h
route_keeps_comments env axis project_id actor id db db2 h =
    let e : db ≡ db2 = cc h in ap (λ (d : Db). d.comments) (sym e)

applied_store :
    (action : Action) (body : String) (o : Option Db) (db2 : Db) {b : Action} {text : Option String}
    → applied_with action body o ≡ applied b text (opened db2)
    → o ≡ some db2
unfolding applied_with
applied_store action body none db2 h = absurd (cc h)
applied_store action body (some db) db2 h = cc h

-- One objection writes its comment, where the ticket does not have it, or leaves the comments.
abbrev pub Posted : String → String → Db → Db → Type 0
Posted id body db db2 =
    (db2.comments ≡ db.comments)
    ⊎ (has_comment db id body ≡ false)
      × (c : Comment) × (c.ticket_id ≡ id)
      × (c.body ≡ body)
      × (db2.comments ≡ db.comments ++ c ∷ [])

routed-Posted :
    (env : Env) (axis : TripAxis) (project_id actor id body : String) (db db2 : Db) (o : Option Db)
    → post env db project_id actor id body ≡ o
    → route_after env axis project_id actor id o ≡ some db2
    → Posted id body db db2
unfolding route_after
routed-Posted env axis project_id actor id body db db2 none p h = absurd (cc h)
routed-Posted env axis project_id actor id body db db2 (some db1) p h =
    let same = route_keeps_comments env axis project_id actor id db1 db2 h in
    elim (post_grows env db project_id actor id body db1 p) [
      | inl kept ↦ inl (same ∙ kept)
      | inr (fresh, more) ↦ inr (fresh, new_comment env actor id body, refl, refl, same ∙ more)
    ]

trip-Posted :
    (env : Env) (axis : TripAxis) (actor id body : String) (db db2 : Db) (o : Option Ticket)
    {action : Action} {text : Option String}
    → apply_row env axis actor id body db o ≡ applied action text (opened db2)
    → Posted id body db db2
unfolding apply_row
trip-Posted env axis actor id body db db2 none h =
    let e : db ≡ db2 = cc h in inl (ap (λ (d : Db). d.comments) (sym e))
trip-Posted env axis actor id body db db2 (some t) h =
    routed-Posted env axis t.project_id actor id body db db2
      (post env db t.project_id actor id body) refl (applied_store _ body _ db2 h)

-- Runs of the guard that object to a ticket with the same text, one behind the other.
pub data Objections (id body : String) : Db → Db → Type 0 where
  no_more : {db : Db} → Objections id body db db
  once_more :
      {db db2 db3 : Db} (env : Env) (axis : TripAxis) (actor : String) {action : Action}
      {text : Option String}
      → Objections id body db db2
      → apply_trip env axis actor id body (opened db2) ≡ applied action text (opened db3)
      → Objections id body db db3

has_same :
    (id body : String) (db db2 : Db)
    → db2.comments ≡ db.comments
    → has_comment db2 id body ≡ has_comment db id body
unfolding has_comment
has_same id body db db2 e = ap (any (is_posted id body)) e

last_there :
    (id body : String) (xs : List Comment) (c : Comment)
    → is_posted id body c ≡ true
    → any (is_posted id body) (xs ++ c ∷ []) ≡ true
last_there id body [] c h = rw h refl
last_there id body (x ∷ xs) c h = ground (arith, last_there id body xs c h)

has_last :
    (id body : String) (db db2 : Db) (c : Comment)
    → c.ticket_id ≡ id
    → c.body ≡ body
    → db2.comments ≡ db.comments ++ c ∷ []
    → has_comment db2 id body ≡ true
unfolding has_comment is_posted
has_last id body db db2 c i b e =
    ap (any (is_posted id body)) e
    ∙ last_there id body db.comments c
        (ground (arith, eq_iff c.ticket_id id, eq_iff c.body body, i, b))

-- However often the guard objects with one text, the comments of the store are as before, or one comment
-- with that text was added to a ticket that had none.
pub Objections-post_once :
    (id body : String) {db db2 : Db} → Objections id body db db2 → Posted id body db db2
unfolding apply_trip
Objections-post_once id body no_more = inl refl
Objections-post_once id body {db} (once_more {db2} {db3} env axis actor runs h) =
    elim (Objections-post_once id body runs) [
      | inl same ↦ elim (trip-Posted env axis actor id body db2 db3 (find_by_id db2 id) h) [
        | inl kept ↦ inl (kept ∙ same)
        | inr (fresh, c, i, b, more) ↦ inr (
          sym (has_same id body db db2 same) ∙ fresh,
          c,
          i,
          b,
          more ∙ ap (λ (xs : List Comment). xs ++ c ∷ []) same,
        )
      ]
      | inr (fresh, c, i, b, more) ↦
          elim (trip-Posted env axis actor id body db2 db3 (find_by_id db2 id) h) [
            | inl kept ↦ inr (fresh, c, i, b, kept ∙ more)
            | inr (absent, _, _, _, _) ↦ absurd (cc (absent, has_last id body db db2 c i b more))
          ]
    ]
