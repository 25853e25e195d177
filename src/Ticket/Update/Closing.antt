-- ===== src/Ticket/Update/Closing.antt =====
-- Which updates may leave a closed state, hand a ticket off, or close it.
use dev_loop.Common.{
  String, true, false, none, some, List, [], ◌++◌, ◌≡◌, ◌⊎◌, inl, inr, arith, includes, eq_iff,
}
use dev_loop.Store.{State, Db, find_ticket, in_progress, in_review, done}
use dev_loop.Ticket.Env.{Env, Rejection}
use dev_loop.Ticket.Labels.{owner_labels_of}
use dev_loop.Ticket.Gates.States.{TicketFields, decided, terminal_exit_rejection, is_closed}
use dev_loop.Ticket.Gates.Designs.{design_parent_gate, is_parent_row, stranded}
use dev_loop.Ticket.Gates.Chain.{verify_gate_rejection}
use dev_loop.Ticket.Update.{ok, err, update_ticket_row, stored_labels_of}
use dev_loop.Ticket.Update.Accepted.{judged, update-Passes, Passed, gates-Passed, update_total}

module _ (db : Db) (project_id actor id : String) (from : State) (next : TicketFields)
    (f : from ≡ in_review) (d : next.state ≡ done) where
  design_decides :
      design_parent_gate db project_id id actor from next ≡ some decided
      → (is_parent_row db project_id id next.description ≡ true)
        × (actor ≡ "pm")
        × (stranded db project_id id ≡ [])
  unfolding design_parent_gate
  design_decides h = ground (arith, eq_iff actor "pm")

  design_is_silent :
      design_parent_gate db project_id id actor from next ≡ none
      → (actor ≡ "operator") ⊎ (is_parent_row db project_id id next.description ≡ false)
  unfolding design_parent_gate
  design_is_silent h = ground (arith, eq_iff actor "operator")

verified_by :
    (actor : String) (from to : State) (labels stored : List String)
    → from ≡ in_review
    → to ≡ done
    → verify_gate_rejection actor from to labels stored ≡ none
    → (actor ≡ "operator")
      ⊎ ((owner_labels_of (stored ++ labels) ≡ [])
          ⊎ (includes actor (owner_labels_of (stored ++ labels)) ≡ true))
unfolding verify_gate_rejection
verified_by actor from to labels stored f d h = ground (arith, eq_iff actor "operator")

module _ (env : Env) (db : Db) (project_id actor id : String) (from : State) (next : TicketFields)
    {db' : Db} {id' : String}
    (accepted : update_ticket_row env db project_id actor id from next ≡ ok db' id') where
  passed :
      Passed env db project_id actor id from
        (judged db next)
        (stored_labels_of (find_ticket db project_id id))
  passed =
      gates-Passed env db project_id actor id from (judged db next) _
        (update-Passes env db project_id actor id from next accepted)

  -- An accepted update that leaves Done or Canceled is the operator's.
  pub closed_stays_closed : is_closed from ≡ true → (actor ≡ "operator") ⊎ (next.state ≡ from)
  unfolding terminal_exit_rejection
  closed_stays_closed h = ground (arith, passed, passed.terminal, eq_iff actor "operator")

  -- An accepted close of a ticket in review is the operator's, or PM's on a design parent none of
  -- whose children stands in Backlog, or on any other ticket an owner's where there are owners.
  pub close_needs_owner :
      from ≡ in_review
      → next.state ≡ done
      → let owners =
          owner_labels_of
            (stored_labels_of (find_ticket db project_id id) ++ (judged db next).labels) in
        let is_parent = is_parent_row db project_id id next.description in
        (actor ≡ "operator")
        ⊎ (is_parent ≡ true) × (actor ≡ "pm") × (stranded db project_id id ≡ [])
        ⊎ (is_parent ≡ false) × ((owners ≡ []) ⊎ (includes actor owners ≡ true))
  close_needs_owner f d = elim passed.design [
    | inl decides ↦
        inr (inl (design_decides db project_id actor id from (judged db next) f d decides))
    | inr later ↦ elim (design_is_silent db project_id actor id from (judged db next) f d later.0) [
      | inl op ↦ inl op
      | inr ordinary ↦ elim (verified_by actor from next.state _ _ f d later.4) [
        | inl op ↦ inl op
        | inr owner ↦ inr (inr (ordinary, owner))
      ]
    ]
  ]

-- No update takes a ticket from In Progress to Done, whoever makes it.
pub in_progress_never_done :
    (env : Env) (db : Db) (project_id actor id : String) (next : TicketFields)
    → next.state ≡ done
    → (r : Rejection) × (update_ticket_row env db project_id actor id in_progress next ≡ err 400 r)
unfolding design_parent_gate verify_gate_rejection
in_progress_never_done env db project_id actor id next d =
    elim (update_total env db project_id actor id in_progress next) [
      | inr refusal ↦ refusal
      | inl (db', accepted) ↦
          let p = passed env db project_id actor id in_progress next accepted in
          absurd (ground (arith, p.design))
    ]
