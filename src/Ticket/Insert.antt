-- ===== src/Ticket/Insert.antt =====
-- `insertTicket`, and the board's form that goes through it: hub/src/ticketwrite.ts.
use dev_loop.Common.{
  ℕ, String, Bool, Option, none, some, List, [], ◌∷◌, ◌++◌, ◌==◌, any, includes, if◌then◌else◌,
  get_or,
}
use dev_loop.Common.Text.{is_empty, trim}
use dev_loop.Store.{
  State, todo, WaitingOn, Ticket, issue_create, Db, find_ticket, next_ticket_id, log_event,
}
use dev_loop.Design.{DesignRow, design_owner_of_slug}
use dev_loop.Design.Pointer.{design_pointer_of, doc_slug_of, parent_pointer}
use dev_loop.Ticket.Env.{Env, title_required, unknown_project, id_taken}
use dev_loop.Ticket.Labels.{
  assignee_after, Retier, apply_sensitive_retier, Restore, rejected, apply_tier_restore,
  waiting_on_for, reconcile_bail_shape_labels,
}
use dev_loop.Ticket.Gates.Designs.{design_rows}
use dev_loop.Ticket.Update.{Write, ok, err, thrown, log_tier, stored_labels_of}

-- `NewTicketFields`.
pub record NewTicket : Type 0 where
  pub title : String
  pub description : String
  pub type : String
  pub state : State
  pub assignee : Option String
  pub priority : ℕ
  pub labels : List String
  pub duplicate_of : Option String
  pub related_to : List String
  pub waiting_on : Option WaitingOn

-- The parent that a pending child's pointer leads to.
unfoldable pub parent_of_pointer : List DesignRow → String → List String → String → Option String
parent_of_pointer rows description related_to ptr = elim (parent_pointer ptr) [
  | some p ↦ some p
  | none ↦ elim (doc_slug_of ptr) [
    | none ↦ none
    | some slug ↦
        design_owner_of_slug rows slug
          (some (record { description = description; related_to = related_to }))
  ]
]

abbrev pub labels_of_row : Db → String → String → List String
labels_of_row db project_id id = stored_labels_of (find_ticket db project_id id)

-- A staged child of a sensitive parent is sensitive.
unfoldable pub inherit_sensitive : Db → String → String → List String → List String → List String
unfolding parent_of_pointer
inherit_sensitive db project_id description labels related_to =
    if includes "sensitive" labels then labels else elim (design_pointer_of description) [
      | none ↦ labels
      | some ptr ↦ elim (parent_of_pointer (design_rows db project_id) description related_to ptr) [
        | none ↦ labels
        | some p ↦
            if includes "sensitive" (labels_of_row db project_id p)
            then labels ++ "sensitive" ∷ []
            else labels
      ]
    ]

-- The new row.
abbrev pub new_row : Env → String → String → String → NewTicket → Retier → List String → Ticket
new_row env id project_id actor f retier labels = record {
  id = id;
  project_id = project_id;
  title = f.title;
  description = f.description;
  type = f.type;
  state = f.state;
  assignee = retier.assignee;
  priority = f.priority;
  labels = labels;
  duplicate_of = f.duplicate_of;
  related_to = f.related_to;
  waiting_on = waiting_on_for f.state f.waiting_on none;
  created_by = actor;
  created_at = env.now;
  updated_at = env.now;
}

abbrev pub has_id : String → Ticket → Bool
has_id id t = t.id == id

-- The insert under an id that the counter gave.
unfoldable pub insert_row :
    Env
    → String
    → String
    → NewTicket
    → List (String × String)
    → Retier
    → Restore
    → Option (String × Db)
    → Write
unfolding log_tier
insert_row env project_id actor f fields retier restore none = thrown unknown_project
insert_row env project_id actor f fields retier restore (some (id, db)) =
    let labels = reconcile_bail_shape_labels db.comments id retier.labels in
    let row = new_row env id project_id actor f retier labels in
    let written = record db { tickets = db.tickets ++ row ∷ [] } in
    if any (has_id id) db.tickets
    then thrown id_taken
    else ok
        (log_tier env project_id id actor retier restore
          (log_event env.fire env.now written project_id id actor (issue_create fields)))
        id

unfoldable pub insert_tiered :
    Env → Db → String → String → NewTicket → List (String × String) → List String → Restore → Write
unfolding insert_row
insert_tiered env db project_id actor f fields labels (rejected r) = thrown r
insert_tiered env db project_id actor f fields labels restore =
    insert_row env project_id actor f fields
      (apply_sensitive_retier db (assignee_after restore f.assignee) labels) restore
      (next_ticket_id db project_id)

unfoldable pub insert_ticket :
    Env → Db → String → String → NewTicket → List (String × String) → Write
unfolding insert_tiered
insert_ticket env db project_id actor f fields =
    let labels = inherit_sensitive db project_id f.description f.labels f.related_to in
    insert_tiered env db project_id actor f fields labels
      (apply_tier_restore f.state f.assignee labels)

-- `createTicket`: the board's form.
unfoldable pub create_ticket :
    Env → Db → String → String → String → Option String → Option String → Write
create_ticket env db project_id actor title description type =
    if is_empty (trim title)
    then err 400 title_required
    else insert_ticket env db project_id actor
        (record {
          title = trim title;
          description = get_or description "";
          type = get_or type "Feature";
          state = todo;
          assignee = none;
          priority = 0;
          labels = [];
          duplicate_of = none;
          related_to = [];
          waiting_on = none;
        })
        (("title", trim title) ∷ ("type", get_or type "Feature") ∷ [])
