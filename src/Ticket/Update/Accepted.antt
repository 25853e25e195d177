-- ===== src/Ticket/Update/Accepted.antt =====
-- What an accepted update shows of the gates that it passed.
use dev_loop.Common.{String, Option, none, some, List, ◌≡◌, refl, ◌⊎◌, inl, inr, arith, ◌or_else◌}
use dev_loop.Store.{State, Db, find_ticket}
use dev_loop.Ticket.Env.{Env, Rejection}
use dev_loop.Ticket.Handoff.{HandoffInput, handoff_gate_rejection}
use dev_loop.Ticket.Acceptance.{
  ac_completeness_rejection, unlanded_work_rejection, AcGateInput, UnlandedGateInput,
}
use dev_loop.Ticket.Labels.{
  assignee_after, Restore, kept, restored, rejected, apply_tier_restore, apply_sensitive_retier,
}
use dev_loop.Ticket.Labels.Tiers.{NotRejected}
use dev_loop.Ticket.Gates.States.{
  TicketFields, Decision, decided, refused, human_blocked_entry_rejection, terminal_exit_rejection,
  staging_deploy_rejection,
}
use dev_loop.Ticket.Gates.Chain.{
  gates, verify_gate_rejection, landing_context_for, as_refusal, comment_bodies_for,
  ac_gate_enabled, unlanded_gate_enabled,
}
use dev_loop.Ticket.Gates.Designs.{design_parent_gate, design_parent_handoff_exemption}
use dev_loop.Ticket.Update.{
  ok, err, update_ticket_row, update_tiered, after_gates, commit_update, resolve, stored_labels_of,
}

-- The row that the gates judge.
abbrev pub judged : Db → TicketFields → TicketFields
judged db next = resolve next (
    apply_sensitive_retier db
      (assignee_after (apply_tier_restore next.state next.assignee next.labels) next.assignee)
      next.labels)

abbrev pub Passes : Option Decision → Type 0
Passes d = (d ≡ none) ⊎ (d ≡ some decided)

after_gates-eq-ok :
    (d : Option Decision) (db db' : Db) (id id' : String)
    → after_gates d db id ≡ ok db' id'
    → Passes d × (db ≡ db')
unfolding after_gates
after_gates-eq-ok none db db' id id' h = ground arith
after_gates-eq-ok (some decided) db db' id id' h = ground arith
after_gates-eq-ok (some (refused r)) db db' id id' h = ground arith

module _ (env : Env) (db : Db) (project_id actor id : String) (from : State) (next : TicketFields)
    {db' : Db} {id' : String}
    (accepted : update_ticket_row env db project_id actor id from next ≡ ok db' id') where
  tiered-Passes :
      (restore : Restore)
      → update_tiered env db project_id actor id from next restore ≡ ok db' id'
      → let retier = apply_sensitive_retier db (assignee_after restore next.assignee) next.labels in
        NotRejected restore
        × Passes (
            gates env db project_id actor id from
              (resolve next retier)
              (stored_labels_of (find_ticket db project_id id)))
        × (commit_update env db project_id actor id from (resolve next retier) retier restore ≡ db')
  unfolding update_tiered
  tiered-Passes (rejected r) h = absurd (cc)
  tiered-Passes kept h = let (p, e) = after_gates-eq-ok _ _ _ _ _ h in (tt, p, e)
  tiered-Passes (restored t) h = let (p, e) = after_gates-eq-ok _ _ _ _ _ h in (tt, p, e)

  pub update-Passes : Passes (
      gates env db project_id actor id from
        (judged db next)
        (stored_labels_of (find_ticket db project_id id)))
  unfolding update_ticket_row
  update-Passes =
      (tiered-Passes (apply_tier_restore next.state next.assignee next.labels) accepted).1

  -- The store after an accepted update.
  pub update_commits :
      let restore = apply_tier_restore next.state next.assignee next.labels in
      let retier = apply_sensitive_retier db (assignee_after restore next.assignee) next.labels in
      NotRejected restore
      × (commit_update env db project_id actor id from (judged db next) retier restore ≡ db')
  unfolding update_ticket_row
  update_commits =
      let (n, p, e) =
        tiered-Passes (apply_tier_restore next.state next.assignee next.labels) accepted in
      (n, e)

or_else-Passes :
    (r : Option Rejection) (d : Option Decision)
    → Passes (as_refusal r or_else d)
    → (r ≡ none) × Passes d
or_else-Passes none d p = (refl, p)
or_else-Passes (some r) d (inl e) = absurd (cc)
or_else-Passes (some r) d (inr e) = absurd (cc)

as_refusal-Passes : (r : Option Rejection) → Passes (as_refusal r) → r ≡ none
as_refusal-Passes none p = refl
as_refusal-Passes (some r) (inl e) = absurd (cc)
as_refusal-Passes (some r) (inr e) = absurd (cc)

-- The design rule decides, or the four gates behind it all pass.
design-Passes :
    (d : Option Decision) (o a u v : Option Rejection)
    → Passes (d or_else as_refusal o or_else as_refusal a or_else as_refusal u or_else as_refusal v)
    → (d ≡ some decided) ⊎ ((d ≡ none) × (o ≡ none) × (a ≡ none) × (u ≡ none) × (v ≡ none))
design-Passes (some decided) o a u v p = inl refl
design-Passes (some (refused r)) o a u v (inl e) = absurd (cc)
design-Passes (some (refused r)) o a u v (inr e) = absurd (cc)
design-Passes none o a u v p =
    let (ho, p1) = or_else-Passes o _ p in
    let (ha, p2) = or_else-Passes a _ p1 in
    let (hu, p3) = or_else-Passes u _ p2 in inr (refl, ho, ha, hu, as_refusal-Passes v p3)

module _ (env : Env) (db : Db) (project_id actor id : String) (from : State) (next : TicketFields)
    (stored : List String) where
  abbrev pub handoff_input : HandoffInput
  handoff_input = record {
    id = id;
    from_state = from;
    to_state = next.state;
    actor = actor;
    repo_root = (landing_context_for env db project_id).repo_root;
    landing = (landing_context_for env db project_id).landing;
    is_design_parent = design_parent_handoff_exemption db project_id id from next;
  }

  abbrev pub ac_input : AcGateInput
  ac_input = record {
    description = next.description;
    to_state = next.state;
    from_state = from;
    actor = actor;
    comment_bodies = comment_bodies_for db id;
    enabled = ac_gate_enabled env;
  }

  abbrev pub unlanded_input : UnlandedGateInput
  unlanded_input = record {
    id = id;
    to_state = next.state;
    from_state = from;
    actor = actor;
    comment_bodies = comment_bodies_for db id;
    repo_root = (landing_context_for env db project_id).repo_root;
    base_ref = (landing_context_for env db project_id).base_ref;
    enabled = unlanded_gate_enabled env;
  }

  -- The gates behind the design rule.
  abbrev pub LaterPassed : Type 0
  LaterPassed =
      (design_parent_gate db project_id id actor from next ≡ none)
      × (handoff_gate_rejection env.git handoff_input ≡ none)
      × (ac_completeness_rejection ac_input ≡ none)
      × (unlanded_work_rejection env.git unlanded_input ≡ none)
      × (verify_gate_rejection actor from next.state next.labels stored ≡ none)

  pub record Passed : Type 0 where
    pub human_blocked : human_blocked_entry_rejection env db project_id actor from next.state ≡ none
    pub terminal : terminal_exit_rejection actor from next.state ≡ none
    pub staging : staging_deploy_rejection db project_id from next.state next.labels ≡ none
    pub design : (design_parent_gate db project_id id actor from next ≡ some decided) ⊎ LaterPassed

  pub gates-Passed : Passes (gates env db project_id actor id from next stored) → Passed
  unfolding gates
  gates-Passed p =
      let (h, p1) = or_else-Passes _ _ p in
      let (t, p2) = or_else-Passes _ _ p1 in
      let (s, p3) = or_else-Passes _ _ p2 in
      record { human_blocked = h; terminal = t; staging = s; design = design-Passes _ _ _ _ _ p3 }

after_gates_total :
    (d : Option Decision) (db : Db) (id : String)
    → ((db' : Db) × (after_gates d db id ≡ ok db' id))
      ⊎ ((r : Rejection) × (after_gates d db id ≡ err 400 r))
unfolding after_gates
after_gates_total none db id = inl (db, refl)
after_gates_total (some decided) db id = inl (db, refl)
after_gates_total (some (refused r)) db id = inr (r, refl)

pub update_total :
    (env : Env) (db : Db) (project_id actor id : String) (from : State) (next : TicketFields)
    → ((db' : Db) × (update_ticket_row env db project_id actor id from next ≡ ok db' id))
      ⊎ ((r : Rejection) × (update_ticket_row env db project_id actor id from next ≡ err 400 r))
unfolding update_ticket_row
update_total env db project_id actor id from next =
    go (apply_tier_restore next.state next.assignee next.labels)
  where
    go :
        (restore : Restore)
        → ((db' : Db) × (update_tiered env db project_id actor id from next restore ≡ ok db' id))
          ⊎ ((r : Rejection) × (update_tiered env db project_id actor id from next restore
                ≡ err 400 r))
    go (rejected r) = inr (r, refl)
    go kept = after_gates_total _ _ _
    go (restored to) = after_gates_total _ _ _
