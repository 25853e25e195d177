-- ===== src/MergeGuard/Tickets.antt =====
-- The axis of the board, in `mergeGuard` of hub/src/merge-guard.ts.
use dev_loop.Common.{
  String, false, not, Option, none, some, List, [], ◌==◌, find, get_or, ◌or_else◌,
}
use dev_loop.Store.{Ticket, Db}
use dev_loop.PrTickets.{PrTicketSources, pr_ticket_ids, ticket_from_branch}
use dev_loop.Landing.{Answer, replied, Forge, PrHead}
use dev_loop.MergeGuard.Results.{
  is_merge_eligible, SkipReason, no_ticket_input, no_repo_resolved, pr_not_a_loop_branch, no_hub_db,
  hub_db_unreadable, forge_unreachable, BoardStateResult, Board, no_path, no_file, unreadable,
  opened, Options,
}

-- What the lookup by the pull request gives.
pub record Lookup : Type 0 where
  pub claimed : List String
  pub ticket : Option String
  pub lookup_failure : Option SkipReason

abbrev pub looked_up : Option String → Option SkipReason → Lookup
looked_up ticket why = record { claimed = []; ticket = ticket; lookup_failure = why }

abbrev sources : PrHead → PrTicketSources
sources h = record {
  branch = get_or h.head_ref_name "";
  commit_messages = h.messages;
  title = get_or h.title "";
  body = get_or h.body "";
}

-- The head of the pull request was read.
unfoldable pub lookup_in : PrHead → Lookup
unfolding pr_ticket_ids ticket_from_branch
lookup_in h =
    let ticket = ticket_from_branch (get_or h.head_ref_name "") in
    record {
      claimed = pr_ticket_ids (sources h);
      ticket = ticket;
      lookup_failure = elim ticket [ none ↦ some pr_not_a_loop_branch | some id ↦ none ];
    }

unfoldable pub lookup_answer : Answer PrHead → Lookup
unfolding lookup_in
lookup_answer (replied h) = lookup_in h
lookup_answer _ = looked_up none (some forge_unreachable)

unfoldable pub lookup_pr : Forge → Option String → String → Lookup
unfolding lookup_answer
lookup_pr forge none pr = looked_up none (some no_repo_resolved)
lookup_pr forge (some repo) pr = lookup_answer (forge.head repo pr)

-- The ticket that is named, or the pull request's.
unfoldable pub lookup_given : Forge → Option String → Option String → Option String → Lookup
unfolding lookup_pr
lookup_given forge (some id) repo pr = looked_up (some id) none
lookup_given forge none repo none = looked_up none none
lookup_given forge none repo (some pr) = lookup_pr forge repo pr

-- The ticket of the branch that is checked out.
unfoldable pub checked_out : Option String → Option String
unfolding ticket_from_branch
checked_out none = none
checked_out (some branch) = ticket_from_branch branch

abbrev pub skipped_board : List String → Option String → SkipReason → BoardStateResult
skipped_board claimed id why = record {
  ticket_id = id;
  ticket_state = none;
  trip = false;
  skip_reason = some why;
  claimed_ticket_ids = claimed;
}

-- `SELECT … FROM tickets WHERE id=?`.
unfoldable pub find_by_id : Db → String → Option Ticket
find_by_id db id = find (λ t. t.id == id) db.tickets

unfoldable pub judge_ticket : List String → String → Option Ticket → BoardStateResult
unfolding is_merge_eligible
judge_ticket claimed id none = record {
  ticket_id = some id;
  ticket_state = none;
  trip = false;
  skip_reason = none;
  claimed_ticket_ids = claimed;
}
judge_ticket claimed id (some t) = record {
  ticket_id = some id;
  ticket_state = some t.state;
  trip = not (is_merge_eligible t.state);
  skip_reason = none;
  claimed_ticket_ids = claimed;
}

unfoldable pub judge_board : List String → String → Board → BoardStateResult
unfolding judge_ticket find_by_id
judge_board claimed id no_path = skipped_board claimed (some id) no_hub_db
judge_board claimed id no_file = skipped_board claimed (some id) no_hub_db
judge_board claimed id unreadable = skipped_board claimed (some id) hub_db_unreadable
judge_board claimed id (opened db) = judge_ticket claimed id (find_by_id db id)

unfoldable pub judge_found : Lookup → Board → Option String → BoardStateResult
unfolding judge_board
judge_found l board none = skipped_board l.claimed none (get_or l.lookup_failure no_ticket_input)
judge_found l board (some id) = judge_board l.claimed id board

-- The ticket of the run.
unfoldable pub ticket_of : Forge → Options → Option String
unfolding lookup_given checked_out
ticket_of forge o =
    (lookup_given forge o.ticket_id o.gh_repo o.pr).ticket or_else checked_out o.head_branch

-- The axis of the board.
unfoldable pub board_axis : Forge → Options → BoardStateResult
unfolding judge_found ticket_of
board_axis forge o =
    judge_found (lookup_given forge o.ticket_id o.gh_repo o.pr) o.board (ticket_of forge o)
