-- ===== src/Ticket/Examples/Updates.antt =====
-- Updates of the board.
use dev_loop.Common.{
  ℕ, String, Bool, true, false, Option, none, some, List, [], ◌∷◌, ◌++◌, ◌≡◌, refl, ◌⊎◌, ◌≢◌, inl,
  inr, includes, any, is_some,
}
use dev_loop.Store.{
  State, todo, in_progress, in_review, done, human_blocked, same_state, Ticket, Comment, Actor,
  agent, human, Project, Db, Fire, find_ticket, actor_is_human, approve,
}
use dev_loop.Ticket.Env.{Rejection}
use dev_loop.Ticket.Gates.States.{TicketFields, human_blocked_mode_for}
use dev_loop.Ticket.Gates.Designs.{is_parent_row, stranded}
use dev_loop.Ticket.Gates.Chain.{landing_context_for}
use dev_loop.Ticket.Handoff.{has_local_work_for, split_tree_files}
use dev_loop.Ticket.Labels.{owner_labels_of}
use dev_loop.Ticket.Update.{Write, ok, err, thrown, fields_of, update_ticket_row, stored_labels_of}
use dev_loop.Ticket.Update.Accepted.{judged}
use dev_loop.Ticket.Update.Closing.{closed_stays_closed, close_needs_owner, in_progress_never_done}
use dev_loop.Ticket.Update.Frame.{
  update_frame, update_waits, row_after, event_at, first_event, tier_events, restore, retier,
}
use dev_loop.Ticket.Examples.Board.{empty_db, env, store_of, operator, qa, pm, ticket1}

abbrev pub board : State → Db
board state = record empty_db {
  tickets = record ticket1 { state = state } ∷ record ticket1 { id = "LOOP-2" } ∷ [];
}

abbrev to_state : State → TicketFields
to_state state = record (fields_of ticket1) { state = state }

abbrev closing : Write
closing = update_ticket_row env (board in_review) "p" "qa" "LOOP-1" in_review (to_state done)

close_ok : closing ≡ ok (store_of closing) "LOOP-1"
unfolding dev_loop.Ticket.Update.log_tier dev_loop.Ticket.Update.commit_update
    dev_loop.Ticket.Update.after_gates dev_loop.Ticket.Update.update_ticket_row
    dev_loop.Ticket.Update.move_ticket dev_loop.Ticket.Update.assign_ticket
    dev_loop.Ticket.Gates.States.human_blocked_mode_for
    dev_loop.Ticket.Gates.States.human_blocked_entry_rejection
    dev_loop.Ticket.Gates.States.terminal_exit_rejection dev_loop.Ticket.Gates.States.repo_label
    dev_loop.Ticket.Gates.States.staging_deploy_rejection dev_loop.Ticket.Gates.Designs.design_rows
    dev_loop.Ticket.Gates.Designs.stranded dev_loop.Ticket.Gates.Designs.is_parent_row
    dev_loop.Ticket.Gates.Designs.design_parent_gate
    dev_loop.Ticket.Gates.Designs.design_parent_handoff_exemption
    dev_loop.Ticket.Gates.Chain.landing_context_for dev_loop.Ticket.Gates.Chain.comment_bodies_for
    dev_loop.Ticket.Gates.Chain.verify_gate_rejection
    dev_loop.Ticket.Gates.Chain.verify_create_gate_rejection dev_loop.Ticket.Gates.Chain.gates
    dev_loop.Ticket.Handoff.has_local_work_for dev_loop.Ticket.Handoff.split_tree_files
    dev_loop.Ticket.Handoff.worktree_for_ticket dev_loop.Ticket.Handoff.split_tree_rejection
    dev_loop.Ticket.Handoff.handoff_gate_rejection dev_loop.Ticket.Acceptance.parse_ac_boxes
    dev_loop.Ticket.Acceptance.waiver_reason dev_loop.Ticket.Acceptance.ac_completeness_rejection
    dev_loop.Ticket.Acceptance.unlanded_branch_residue
    dev_loop.Ticket.Acceptance.unlanded_work_rejection dev_loop.Ticket.Labels.owner_labels_of
    dev_loop.Ticket.Labels.apply_sensitive_retier dev_loop.Ticket.Labels.apply_tier_restore
    dev_loop.Ticket.Labels.waiting_on_for dev_loop.Ticket.Labels.insert_by_time
    dev_loop.Ticket.Labels.order_by_time dev_loop.Ticket.Labels.latest_bail_shape_of
    dev_loop.Ticket.Labels.project_label dev_loop.Ticket.Labels.reconcile_bail_shape_labels
    dev_loop.Design.entry dev_loop.Design.join dev_loop.Design.record_child dev_loop.Design.declared
    dev_loop.Design.lookup dev_loop.Design.resolve_design_parents dev_loop.Design.design_parent_ids
    dev_loop.Design.design_owner_of_slug dev_loop.Design.design_children_of
    dev_loop.Design.is_design_parent dev_loop.Design.Pointer.design_pointer_of
    dev_loop.Design.Pointer.unwrap_code_span dev_loop.Design.Pointer.parent_pointer
    dev_loop.Design.Pointer.doc_slug_of dev_loop.Design.Pointer.mode_marker_of
    dev_loop.Design.Pointer.is_design_mode_body dev_loop.Design.Pointer.declares_non_design_mode
    dev_loop.Bail.token dev_loop.Bail.bail_shapes dev_loop.Bail.is_bail_label
    dev_loop.Bail.parse_bail_shape dev_loop.Bail.latest_bail_shape dev_loop.Store.state_name
    dev_loop.Store.states dev_loop.Store.state_of_name dev_loop.Store.find_ticket
    dev_loop.Store.update_rows dev_loop.Store.update_ticket dev_loop.Store.actor_exists
    dev_loop.Store.actor_is_human dev_loop.Store.find_project dev_loop.Store.next_ticket_id
    dev_loop.Store.fire_id dev_loop.Store.log_event dev_loop.Common.dedup
close_ok = refl

close_needs_owner_example :
    (qa ≡ operator)
    ⊎ (is_parent_row (board in_review) "p" "LOOP-1" "" ≡ true)
      × (qa ≡ pm)
      × (stranded (board in_review) "p" "LOOP-1" ≡ [])
    ⊎ (is_parent_row (board in_review) "p" "LOOP-1" "" ≡ false)
      × ((owner_labels_of (ticket1.labels ++ ticket1.labels) ≡ [])
          ⊎ (includes "qa" (owner_labels_of (ticket1.labels ++ ticket1.labels)) ≡ true))
unfolding find_ticket dev_loop.Ticket.Labels.apply_sensitive_retier
    dev_loop.Ticket.Labels.apply_tier_restore
close_needs_owner_example =
    close_needs_owner env (board in_review) "p" "qa" "LOOP-1" in_review (to_state done) close_ok
      refl refl

abbrev reopening : Write
reopening = update_ticket_row env (board done) "p" "operator" "LOOP-1" done (to_state todo)

reopen_ok : reopening ≡ ok (store_of reopening) "LOOP-1"
unfolding update_ticket_row dev_loop.Ticket.Labels.apply_tier_restore
    dev_loop.Ticket.Gates.Chain.gates dev_loop.Ticket.Gates.States.human_blocked_entry_rejection
    dev_loop.Ticket.Gates.States.terminal_exit_rejection
    dev_loop.Ticket.Gates.States.staging_deploy_rejection dev_loop.Store.find_project
    dev_loop.Ticket.Gates.Designs.design_parent_gate dev_loop.Ticket.Handoff.handoff_gate_rejection
    dev_loop.Ticket.Acceptance.ac_completeness_rejection
    dev_loop.Ticket.Acceptance.unlanded_work_rejection
    dev_loop.Ticket.Gates.Chain.verify_gate_rejection
reopen_ok = refl

closed_stays_closed_example : (operator ≡ operator) ⊎ (todo ≡ done)
closed_stays_closed_example =
    closed_stays_closed env (board done) "p" "operator" "LOOP-1" done (to_state todo) reopen_ok refl

abbrev handing_off : Write
handing_off =
    update_ticket_row env (board in_progress) "p" "senior-dev" "LOOP-1" in_progress
      (to_state in_review)

in_progress_never_done_example :
    (r : Rejection) × (update_ticket_row env
        (board in_progress)
        "p"
        "operator"
        "LOOP-1"
        in_progress
        (to_state done)
      ≡ err 400 r)
in_progress_never_done_example =
    in_progress_never_done env (board in_progress) "p" "operator" "LOOP-1" (to_state done) refl

found_in_review :
    find_ticket (board in_review) "p" "LOOP-1" ≡ some (record ticket1 { state = in_review })
unfolding find_ticket
found_in_review = refl

update_frame_example :
    (find_ticket (store_of closing) "p" "LOOP-1"
      ≡ some (
          row_after env
            (board in_review)
            "p"
            "qa"
            "LOOP-1"
            in_review
            (to_state done)
            (record ticket1 { state = in_review })))
    × (find_ticket (store_of closing) "p" "LOOP-2" ≡ find_ticket (board in_review) "p" "LOOP-2")
    × ((store_of closing).events
        ≡ (board in_review).events
          ++ event_at env "p" "LOOP-1" "qa"
              (first_event in_review (judged (board in_review) (to_state done)))
            ∷ tier_events env "p" "LOOP-1" "qa"
                (retier env (board in_review) "p" "qa" "LOOP-1" in_review (to_state done))
                (restore env (board in_review) "p" "qa" "LOOP-1" in_review (to_state done)))
update_frame_example =
    update_frame env (board in_review) "p" "qa" "LOOP-1" in_review (to_state done)
      (record ticket1 { state = in_review }) "p" "LOOP-2" found_in_review refl close_ok

abbrev parking : Write
parking =
    update_ticket_row env (board in_progress) "p" "senior-dev" "LOOP-1" in_progress
      (to_state human_blocked)

park_ok : parking ≡ ok (store_of parking) "LOOP-1"
unfolding update_ticket_row dev_loop.Ticket.Labels.apply_tier_restore
    dev_loop.Ticket.Gates.Chain.gates dev_loop.Ticket.Gates.States.human_blocked_entry_rejection
    actor_is_human human_blocked_mode_for dev_loop.Store.find_project
    dev_loop.Ticket.Gates.States.terminal_exit_rejection
    dev_loop.Ticket.Gates.States.staging_deploy_rejection
    dev_loop.Ticket.Gates.Designs.design_parent_gate dev_loop.Ticket.Handoff.handoff_gate_rejection
    dev_loop.Ticket.Acceptance.ac_completeness_rejection
    dev_loop.Ticket.Acceptance.unlanded_work_rejection
    dev_loop.Ticket.Gates.Chain.verify_gate_rejection
park_ok = refl

found_in_progress :
    find_ticket (board in_progress) "p" "LOOP-1" ≡ some (record ticket1 { state = in_progress })
unfolding find_ticket
found_in_progress = refl

update_waits_example :
    (t' : Ticket) × (find_ticket (store_of parking) "p" "LOOP-1" ≡ some t')
    × (t'.state ≡ human_blocked)
    × ((in_progress ≡ human_blocked) × (human_blocked ≢ human_blocked) × (t'.waiting_on ≡ none)
        ⊎ (in_progress ≢ human_blocked)
          × (human_blocked ≡ human_blocked)
          × (is_some t'.waiting_on ≡ true)
        ⊎ ((same_state in_progress human_blocked ≡ same_state human_blocked human_blocked)
            × (t'.waiting_on ≡ none)))
update_waits_example =
    update_waits env (board in_progress) "p" "senior-dev" "LOOP-1" in_progress
      (to_state human_blocked) (record ticket1 { state = in_progress }) found_in_progress park_ok
