-- ===== src/MergeGuard/Examples.antt =====
-- Runs of the merge guard: hub/src/merge-guard.ts.
use dev_loop.Common.{
  ℕ, String, Bool, true, false, Option, none, some, List, [], ◌∷◌, ◌≡◌, ◌≢◌, refl, inl, inr,
  is_some,
}
use dev_loop.Store.{in_review, todo, Db, find_ticket}
use dev_loop.Ticket.Examples.Board.{env, ticket1}
use dev_loop.Ticket.Examples.Updates.{board}
use dev_loop.Landing.{Answer, failed, threw, garbled, replied, Forge, PrChecks, Check}
use dev_loop.Landing.Freshness.{Verdict, fresh_green, stale_exempt, Reason, CiFreshness}
use dev_loop.Landing.Review.{PrReviewState, read_pr_review_state}
use dev_loop.MergeGuard.Results.{Board, no_file, opened, Options}
use dev_loop.MergeGuard.Run.{Run, exit_code, merge_guard}
use dev_loop.MergeGuard.Tickets.{board_axis, ticket_of}
use dev_loop.MergeGuard.Apply.{on_board, wrote, already_present, Applied, applied, apply_trip}
use dev_loop.MergeGuard.Apply.Posts.{no_more, once_more, Posted, Objections-post_once}
use dev_loop.MergeGuard.Gate.{held_ineligible}
use dev_loop.MergeGuard.Gate.Objections.{held_objection}
use dev_loop.MergeGuard.Gate.Skips.{unevaluated_exit}

-- `dev-loop/LOOP-1` has a failed test, a change request by mia and a comment of a bot; main is two commits
-- ahead in the docs.
abbrev checks_of : String → PrChecks
checks_of conclusion = record {
  head_ref_oid = some "abc";
  status_check_rollup = some (
      record { name = "test"; conclusion = some conclusion }
      ∷ record { name = "lint"; conclusion = none }
      ∷ []);
}

abbrev forge_with : (conclusion branch : String) → Forge
forge_with conclusion branch = record {
  checks = λ repo pr. replied (checks_of conclusion);
  compare = λ repo base head. replied (record { behind_by = some 2; base_commit = some "tip" });
  delta = λ repo head base. replied (record {
    files = some (some "docs/a.md" ∷ some "docs/b.md" ∷ []);
    total_commits = some 2;
    commits = some 2;
  });
  reviews = λ repo pr. replied (record {
    number = 7;
    review_decision = some "CHANGES_REQUESTED";
    url = none;
    latest_reviews = some (
        record { author = some "mia"; state = "CHANGES_REQUESTED" }
        ∷ record { author = some "helper"; state = "CHANGES_REQUESTED" }
        ∷ []);
  });
  graph = λ repo pr. replied (record {
    reviews = some (record { login = some "helper"; typename = some "Bot" }) ∷ [];
    threads = [];
  });
  head = λ repo pr.
      replied (record { head_ref_name = some branch; messages = []; title = none; body = none });
  state = λ repo pr. replied (some "OPEN");
  list_head = λ repo branch. replied [];
  search = λ repo text. replied [];
  landing = λ repo pr. failed "";
}

abbrev forge : Forge
forge = forge_with "FAILURE" "dev-loop/LOOP-1"

abbrev options : Options
options = record {
  ticket_id = none;
  pr = some "7";
  gh_repo = some "acme/hub";
  agent_reviewers = [];
  merge_checks = "test" ∷ [];
  ci_irrelevant_paths = "docs/" ∷ [];
  repo_ref = some "hub";
  default_branch = "main";
  repo_eligible = true;
  ci_config_ambiguous = false;
  apply = false;
  head_branch = none;
  board = opened (board in_review);
}

abbrev render : Reason → String
render r = ""

abbrev reviews : PrReviewState
reviews = record {
  pr = 7;
  review_decision = "CHANGES_REQUESTED";
  change_requesters = "mia" ∷ "helper" ∷ [];
  unresolved_thread_authors = [];
  bot_logins = "helper" ∷ [];
  url = "";
}

held_ineligible_example : exit_code true (merge_guard forge env render "operator" options) ≢ 0
unfolding ticket_of dev_loop.MergeGuard.Tickets.find_by_id
    dev_loop.MergeGuard.Results.is_merge_eligible
held_ineligible_example =
    held_ineligible forge env render "operator" options (board in_review) "LOOP-1"
      (record ticket1 { state = in_review }) refl refl refl (inl refl)

held_objection_example : exit_code true (merge_guard forge env render "operator" options) ≢ 0
unfolding read_pr_review_state
held_objection_example =
    held_objection forge env render "operator" options "acme/hub" "7" "mia" reviews refl refl refl
      refl refl

-- Nothing says what to check.
abbrev untargeted_options : Options
untargeted_options = record options { pr = none; board = no_file }

unevaluated_exit_example :
    exit_code true (merge_guard forge env render "operator" untargeted_options) ≡ 3
unfolding board_axis dev_loop.MergeGuard.Reviews.review_axis dev_loop.MergeGuard.Checks.ci_axis
    dev_loop.MergeGuard.Run.untargeted_reason
unevaluated_exit_example =
    unevaluated_exit forge env render "operator" untargeted_options refl refl refl

abbrev objection : String
objection = "⛔ merge-guard: ticket is In Review (not merge-eligible). Not merged."

abbrev store_of_applied : Applied → Db
store_of_applied (applied action body (opened db)) = db
store_of_applied _ = board in_review

abbrev once : Db
once = store_of_applied (apply_trip env on_board "qa" "LOOP-1" objection (opened (board in_review)))

once_wrote :
    apply_trip env on_board "qa" "LOOP-1" objection (opened (board in_review))
    ≡ applied wrote (some objection) (opened once)
unfolding apply_trip dev_loop.Ticket.Comments.add_comment find_ticket dev_loop.Common.Text.trim
    dev_loop.Ticket.Comments.ruling_comment_policy dev_loop.Ticket.Rulings.parse_ruling
once_wrote = refl

twice_present :
    apply_trip env on_board "qa" "LOOP-1" objection (opened once)
    ≡ applied already_present (some objection) (opened once)
unfolding apply_trip dev_loop.Ticket.Comments.add_comment find_ticket dev_loop.Common.Text.trim
    dev_loop.Ticket.Comments.ruling_comment_policy dev_loop.Ticket.Rulings.parse_ruling
    dev_loop.Ticket.Comments.insert_comment dev_loop.Bail.parse_bail_shape dev_loop.Store.log_event
twice_present = refl

Objections-post_once_example : Posted "LOOP-1" objection (board in_review) once
Objections-post_once_example =
    Objections-post_once "LOOP-1" objection
      (once_more env on_board "qa" (once_more env on_board "qa" no_more once_wrote) twice_present)

-- The pull request is a person's, and the branch that happens to be checked out names the ticket.
passenger :
    ticket_of
      (forge_with "SUCCESS" "mias-branch")
      (record options { head_branch = some "dev-loop/LOOP-1" })
    ≡ some "LOOP-1"
unfolding ticket_of
passenger = refl
