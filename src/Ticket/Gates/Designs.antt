-- ===== src/Ticket/Gates/Designs.antt =====
-- The gates on design parents: hub/src/ticketwrite.ts.
use dev_loop.Common.{
  String, Bool, true, false, ◌&&◌, ◌||◌, not, Option, none, some, List, [], ◌∷◌, ◌==◌, includes,
  if◌then◌else◌, is_nil,
}
use dev_loop.Store.{State, backlog, in_review, done, Ticket, Db}
use dev_loop.Design.{DesignRow, design_parent_ids, design_children_of, is_design_parent}
use dev_loop.Ticket.Env.{design_parent_not_pm, stranded_children}
use dev_loop.Ticket.Handoff.{is_handoff}
use dev_loop.Ticket.Gates.States.{TicketFields, Decision, decided, refused}

abbrev pub is_close : State → State → Bool
is_close in_review done = true
is_close _ _ = false

-- The project's tickets as the design rules read them.
design_rows_from : String → List Ticket → List DesignRow
design_rows_from project_id [] = []
design_rows_from project_id (t ∷ ts) =
    let rest = design_rows_from project_id ts in
    if t.project_id == project_id
    then record { id = t.id; description = t.description; related_to = t.related_to } ∷ rest
    else rest

unfoldable pub design_rows : Db → String → List DesignRow
unfolding design_rows_from
design_rows db project_id = design_rows_from project_id db.tickets

abbrev pub is_backlog : State → Bool
is_backlog backlog = true
is_backlog _ = false

stranded_from : String → List String → List Ticket → List String
stranded_from project_id children [] = []
stranded_from project_id children (t ∷ ts) =
    let rest = stranded_from project_id children ts in
    if t.project_id == project_id && is_backlog t.state && includes t.id children
    then t.id ∷ rest
    else rest

-- The children of a design that still stand in Backlog.
unfoldable pub stranded : Db → String → String → List String
unfolding stranded_from
stranded db project_id id =
    stranded_from project_id (design_children_of (design_rows db project_id) id) db.tickets

unfoldable pub is_parent_row : Db → String → String → String → Bool
is_parent_row db project_id id description =
    is_design_parent id description (design_parent_ids (design_rows db project_id))

unfoldable pub design_parent_gate :
    Db → String → String → String → State → TicketFields → Option Decision
design_parent_gate db project_id id actor from next =
    if not (is_close from next.state)
      || actor == "operator"
      || not (is_parent_row db project_id id next.description)
    then none
    else if not (actor == "pm")
    then some (refused (design_parent_not_pm id actor))
    else if is_nil (stranded db project_id id)
    then some decided
    else some (refused (stranded_children id (stranded db project_id id)))

unfoldable pub design_parent_handoff_exemption : Db → String → String → State → TicketFields → Bool
design_parent_handoff_exemption db project_id id from next =
    is_handoff from next.state && is_parent_row db project_id id next.description
