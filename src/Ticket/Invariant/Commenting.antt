-- ===== src/Ticket/Invariant/Commenting.antt =====
-- A comment by a clock that does not run backwards keeps what holds of every row.
use mathlib.Core.Path.{subst}
use dev_loop.Common.{
  ℕ, String, Bool, true, false, Option, none, some, List, [], ◌∷◌, ◌++◌, ◌≡◌, refl, ◌==◌, ◌∙◌, ap,
  sym, arith, All, includes, eq_iff, if◌then◌else◌, Bool-cases, inl, inr, ◌⊎◌, same_texts→eq,
}
use dev_loop.Store.{
  Ticket, Comment, Db, is_row, update_rows, update_ticket, log_event, comment_add, actor_exists,
}
use dev_loop.Bail.{BailShape, parse_bail_shape, is_bail_label}
use dev_loop.Ticket.Env.{Env}
use dev_loop.Ticket.Labels.{latest_bail_shape_of, project_label}
use dev_loop.Ticket.Labels.Laws.{Fits, target_of, project_label-Fits, includes-project_label}
use dev_loop.Ticket.Comments.{shape_row, project_shape, new_comment, insert_comment}
use dev_loop.Ticket.Invariant.{RowOk, BoardOk}
use dev_loop.Ticket.Invariant.Ordering.{NotAfter, latest_bail_shape_of-append}

shape_row-labels :
    (shape : BailShape) (now : ℕ) (t : Ticket)
    → (shape_row shape now t).labels
      ≡ (if includes "blocked" t.labels then project_label (some shape) t.labels else t.labels)
unfolding shape_row
shape_row-labels shape now t =
    ground (arith, same_texts→eq (project_label (some shape) t.labels) t.labels)

-- The columns that the row rules read besides the labels.
pub shape_row-rest :
    (shape : BailShape) (now : ℕ) (t : Ticket)
    → ((shape_row shape now t).id ≡ t.id)
      × ((shape_row shape now t).state ≡ t.state)
      × ((shape_row shape now t).assignee ≡ t.assignee)
unfolding shape_row
shape_row-rest shape now t = ground arith

not_bail :
    (is_bail_label "blocked" ≡ false)
    × (is_bail_label "sensitive" ≡ false)
    × (is_bail_label "junior-dev" ≡ false)
    × (is_bail_label "senior-dev" ≡ false)
unfolding is_bail_label
not_bail = (refl, refl, refl, refl)

-- A row that differs from one in order by its labels, which fit and name the same tiers.
relabelled-RowOk :
    (before after : List Comment) (senior : Bool) (t r : Ticket)
    → RowOk before senior t
    → r.state ≡ t.state
    → r.assignee ≡ t.assignee
    → ((x : String) → is_bail_label x ≡ false → includes x r.labels ≡ includes x t.labels)
    → Fits (target_of after r.id r.labels) r.labels
    → RowOk after senior r
relabelled-RowOk before after senior t r ok s a same fits =
    let sensitive = same "sensitive" not_bail.1 in
    let junior = same "junior-dev" not_bail.2 in
    let senior_label = same "senior-dev" not_bail.3 in
    record {
      fits = fits;
      tiered = λ is_senior h. rw (a, junior) (ok.tiered is_senior (sym sensitive ∙ h));
      settled = λ at no. rw (junior, senior_label) (ok.settled (sym s ∙ at) (sym a ∙ no));
    }

module _ (comments : List Comment) (c : Comment) (senior : Bool) (t : Ticket)
    (clock : NotAfter c.created_at comments) (ok : RowOk comments senior t) where
  -- A row whose ticket got no bail shape.
  unshaped-RowOk :
      ((c.ticket_id == t.id) ≡ false) ⊎ (parse_bail_shape c.body ≡ none)
      → RowOk (comments ++ c ∷ []) senior t
  unshaped-RowOk h =
      let same : latest_bail_shape_of (comments ++ c ∷ []) t.id
          ≡ latest_bail_shape_of comments t.id =
        ground (arith, latest_bail_shape_of-append comments c t.id clock) in
      record { fits = rw same ok.fits; tiered = ok.tiered; settled = ok.settled }

  -- The row of the ticket whose comment carries a bail shape.
  shaped-RowOk :
      (shape : BailShape) (now : ℕ)
      → (c.ticket_id == t.id) ≡ true
      → parse_bail_shape c.body ≡ some shape
      → RowOk (comments ++ c ∷ []) senior (shape_row shape now t)
  shaped-RowOk shape now mine parsed =
      let newest : latest_bail_shape_of (comments ++ c ∷ []) t.id ≡ some shape =
        ground (arith, latest_bail_shape_of-append comments c t.id clock) in
      let rest = shape_row-rest shape now t in
      let labels = shape_row-labels shape now t in
      elim (Bool-cases (includes "blocked" t.labels)) [
        | inl is ↦
            let e : (shape_row shape now t).labels ≡ project_label (some shape) t.labels =
              labels ∙ rw is refl in
            let same : (x : String)
                → is_bail_label x ≡ false
                → includes x (shape_row shape now t).labels ≡ includes x t.labels =
              λ x h. ap (includes x) e ∙ includes-project_label x (some shape) t.labels h in
            relabelled-RowOk comments (comments ++ c ∷ []) senior t (shape_row shape now t) ok
              rest.1 rest.2 same
              (rw (rest.0, same "blocked" not_bail.0, is, newest, e)
                (project_label-Fits (some shape) t.labels))
        | inr isnt ↦
            let e : (shape_row shape now t).labels ≡ t.labels = labels ∙ rw isnt refl in
            let fits : Fits none t.labels =
              subst (λ b. Fits (if b then latest_bail_shape_of comments t.id else none) t.labels)
                isnt ok.fits in
            relabelled-RowOk comments (comments ++ c ∷ []) senior t (shape_row shape now t) ok
              rest.1 rest.2 (λ x h. ap (includes x) e) (rw (e, isnt) fits)
      ]

-- A comment of the ticket `id` that is not older than the others, in a store where `id` names a
-- ticket of `project_id` alone.
module _ (env : Env) (db : Db) (project_id actor id body : String)
    (clock : NotAfter env.now db.comments)
    (key : All (λ (t : Ticket). t.id ≡ id → t.project_id ≡ project_id) db.tickets)
    (h : BoardOk db) where
  abbrev c : Comment
  c = new_comment env actor id body

  rows_kept :
      (ts : List Ticket)
      → All (RowOk db.comments (actor_exists db "senior-dev")) ts
      → parse_bail_shape body ≡ none
      → All (RowOk (db.comments ++ c ∷ []) (actor_exists db "senior-dev")) ts
  rows_kept [] h none_parsed = tt
  rows_kept (t ∷ ts) h none_parsed =
      (unshaped-RowOk db.comments c _ t clock h.0 (inr none_parsed), rows_kept ts h.1 none_parsed)

  rows_shaped :
      (shape : BailShape) (ts : List Ticket)
      → All (λ (t : Ticket). t.id ≡ id → t.project_id ≡ project_id) ts
      → All (RowOk db.comments (actor_exists db "senior-dev")) ts
      → parse_bail_shape body ≡ some shape
      → All
          (RowOk (db.comments ++ c ∷ []) (actor_exists db "senior-dev"))
          (update_rows (is_row project_id id) (shape_row shape env.now) ts)
  unfolding update_rows
  rows_shaped shape [] k h parsed = tt
  rows_shaped shape (t ∷ ts) k h parsed = elim (Bool-cases (is_row project_id id t)) [
    | inl hit ↦
        let mine : (c.ticket_id == t.id) ≡ true = ground (arith, eq_iff t.id id, eq_iff id t.id) in
        rw hit (
          shaped-RowOk db.comments c _ t clock h.0 shape env.now mine parsed,
          rows_shaped shape ts k.1 h.1 parsed,
        )
    | inr miss ↦
        let other : (c.ticket_id == t.id) ≡ false =
          ground (arith, eq_iff t.id id, eq_iff id t.id, k.0, eq_iff t.project_id project_id) in
        rw miss (
          unshaped-RowOk db.comments c _ t clock h.0 (inl other),
          rows_shaped shape ts k.1 h.1 parsed,
        )
  ]

  -- A comment keeps what holds of every row: the label follows the newest bail shape.
  pub insert_comment-BoardOk : BoardOk (insert_comment env db project_id actor id body)
  unfolding insert_comment project_shape log_event update_ticket actor_exists
  insert_comment-BoardOk = go (parse_bail_shape body) refl
    where
      go :
          (o : Option BailShape)
          → parse_bail_shape body ≡ o
          → BoardOk (
              project_shape env
                (log_event env.fire env.now
                  (record db { comments = db.comments ++ c ∷ [] })
                  project_id
                  id
                  actor
                  comment_add)
                project_id
                id
                o)
      go none e = rows_kept db.tickets h e
      go (some shape) e = rows_shaped shape db.tickets key h e
