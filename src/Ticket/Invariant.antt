-- ===== src/Ticket/Invariant.antt =====
-- What holds of every row of the board: its bail label projects its comments, sensitive work is not
-- a junior's, and a Todo ticket with a developer tier has an assignee.
pub mod Writes
pub mod Inserts
pub mod Ordering
pub mod Commenting
pub mod Keys
pub mod Reach
use dev_loop.Common.{
  String, Bool, true, false, ◌&&◌, Option, none, some, List, [], ◌∷◌, ◌++◌, ◌≡◌, refl, ◌==◌, arith,
  All, includes, eq_iff, ◌∙◌, ap, sym, if◌then◌else◌, Bool-cases, inl, inr,
}
use dev_loop.Store.{Ticket, Comment, Db, State, todo, is_row, update_rows, actor_exists}
use dev_loop.Bail.{is_bail_label}
use dev_loop.Ticket.Labels.{is_handle, reconcile_bail_shape_labels}
use dev_loop.Ticket.Labels.Laws.{Fits, target_of, reconcile-Fits, includes-reconcile}
use dev_loop.Ticket.Labels.Tiers.{NotJunior, NoTier}

-- A row against the comments of the board; `senior` says whether `senior-dev` is an actor.
pub record RowOk (comments : List Comment) (senior : Bool) (t : Ticket) : Type 0 where
  pub fits : Fits (target_of comments t.id t.labels) t.labels
  pub tiered : senior ≡ true → includes "sensitive" t.labels ≡ true → NotJunior t.assignee t.labels
  pub settled : t.state ≡ todo → t.assignee ≡ none → NoTier t.labels

abbrev pub BoardOk : Db → Type 0
BoardOk db = All (RowOk db.comments (actor_exists db "senior-dev")) db.tickets

-- A row whose labels are reconciled from labels with a settled tier.
pub reconciled-RowOk :
    (comments : List Comment) (senior : Bool) (t : Ticket) (labels : List String)
    → t.labels ≡ reconcile_bail_shape_labels comments t.id labels
    → (senior ≡ true → includes "sensitive" labels ≡ true → NotJunior t.assignee labels)
    → (t.state ≡ todo → t.assignee ≡ none → NoTier labels)
    → RowOk comments senior t
unfolding is_bail_label
reconciled-RowOk comments senior t labels e tier settled =
    let at = includes-reconcile comments t.id labels in
    let sensitive : includes "sensitive" t.labels ≡ includes "sensitive" labels =
      ap (includes "sensitive") e ∙ at "sensitive" refl in
    let junior : includes "junior-dev" t.labels ≡ includes "junior-dev" labels =
      ap (includes "junior-dev") e ∙ at "junior-dev" refl in
    let senior_label : includes "senior-dev" t.labels ≡ includes "senior-dev" labels =
      ap (includes "senior-dev") e ∙ at "senior-dev" refl in
    record {
      fits = rw e (reconcile-Fits comments t.id labels);
      tiered = λ s h. let n = tier s (sym sensitive ∙ h) in (n.0, junior ∙ n.1);
      settled = λ s a. let n = settled s a in (junior ∙ n.0, senior_label ∙ n.1);
    }

-- What holds of every row holds after an update that keeps it on the rows that it writes.
pub All-update_rows {κ} :
    (P : Ticket → Type κ) (p : Ticket → Bool) (f : Ticket → Ticket) (ts : List Ticket)
    → ((t : Ticket) → p t ≡ true → P t → P (f t))
    → All P ts
    → All P (update_rows p f ts)
unfolding update_rows
All-update_rows P p f [] keep h = tt
All-update_rows P p f (t ∷ ts) keep h = elim (Bool-cases (p t)) [
  | inl hit ↦ rw hit (keep t hit h.0, All-update_rows P p f ts keep h.1)
  | inr miss ↦ rw miss (h.0, All-update_rows P p f ts keep h.1)
]
