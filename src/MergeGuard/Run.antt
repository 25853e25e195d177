-- ===== src/MergeGuard/Run.antt =====
-- A run of the guard and its exit code: `mergeGuard`, `unevaluatedHold` and the command of
-- hub/src/merge-guard.ts.
use dev_loop.Common.{
  ℕ, String, Bool, true, false, ◌&&◌, ◌||◌, Option, none, some, ◌==◌, is_some, if◌then◌else◌,
  ◌or_else◌,
}
use dev_loop.Ticket.Env.{Env}
use dev_loop.Landing.{Answer, replied, Forge}
use dev_loop.Landing.Freshness.{Reason}
use dev_loop.MergeGuard.Results.{
  SkipReason, untargeted, unreachable, inapplicable, skip_class, BoardStateResult,
  ForgeReviewResult, CiFreshnessResult, Board, no_path, Options,
}
use dev_loop.MergeGuard.Config.{Resolution, resolved, ambiguous, no_config}
use dev_loop.MergeGuard.Tickets.{board_axis}
use dev_loop.MergeGuard.Reviews.{review_axis}
use dev_loop.MergeGuard.Checks.{ci_axis}
use dev_loop.MergeGuard.Objection.{build_comment_body}
use dev_loop.MergeGuard.Apply.{
  TripAxis, on_forge, on_board, on_checks, skipped_merged, Applied, applied, failed_write,
  apply_trip,
}

-- `MergeGuardResult`.
pub record MergeGuardResult : Type 0 where
  pub trip : Bool
  pub board_state : BoardStateResult
  pub forge_review : ForgeReviewResult
  pub ci_freshness : CiFreshnessResult
  pub applied_result : Option Applied

-- A run ends with a result or with an exception.
pub data Run : Type 0 where
  crashed : Run
  ran : MergeGuardResult → Run

-- The three axes together.
unfoldable pub evaluate : Forge → Options → MergeGuardResult
unfolding board_axis review_axis ci_axis
evaluate forge o =
    let b = board_axis forge o in
    let f = review_axis forge o in
    let c = ci_axis forge o in
    record {
      trip = b.trip || f.trip || c.trip;
      board_state = b;
      forge_review = f;
      ci_freshness = c;
      applied_result = none;
    }

abbrev is_merged : Option String → Bool
is_merged none = false
is_merged (some s) = s == "MERGED"

abbrev merged_answer : Answer (Option String) → Option Bool
merged_answer (replied s) = some (is_merged s)
merged_answer _ = none

-- `prMerged`: none where it cannot be told.
unfoldable pub pr_merged : Forge → Option String → String → Option Bool
pr_merged forge none pr = none
pr_merged forge (some repo) pr = merged_answer (forge.state repo pr)

-- Is the pull request merged, or may it be; without one there is nothing to ask.
unfoldable pub is_moot : Forge → Options → Bool
unfolding pr_merged
is_moot forge o = elim o.pr [
  | none ↦ false
  | some pr ↦ elim (pr_merged forge o.gh_repo pr) [ none ↦ true | some merged ↦ merged ]
]

abbrev pub trip_axis : MergeGuardResult → TripAxis
trip_axis r =
    if r.forge_review.trip then on_forge else if r.board_state.trip then on_board else on_checks

abbrev pub with_applied : MergeGuardResult → Applied → Run
with_applied r failed_write = crashed
with_applied r (applied action body board) =
    ran (record r { applied_result = some (applied action body board) })

-- The objection, given whether it is moot.
unfoldable pub object_unless :
    (moot : Bool) → Env → (Reason → String) → String → Options → String → MergeGuardResult → Run
unfolding apply_trip build_comment_body
object_unless true env render actor o id r = with_applied r (applied skipped_merged none o.board)
object_unless false env render actor o id r = with_applied r (
    apply_trip env (trip_axis r) actor id
      (build_comment_body render o.pr r.forge_review r.board_state r.ci_freshness) o.board)

-- The objection, where one is due; where the path of the board cannot be resolved, it throws.
unfoldable pub object_on :
    (due : Bool)
    → Board
    → Forge
    → Env
    → (Reason → String)
    → String
    → Options
    → String
    → MergeGuardResult
    → Run
unfolding object_unless is_moot
object_on false board forge env render actor o id r = ran r
object_on true no_path forge env render actor o id r = crashed
object_on true board forge env render actor o id r =
    object_unless (is_moot forge o) env render actor o id r

unfoldable pub object_to :
    Option String → Forge → Env → (Reason → String) → String → Options → MergeGuardResult → Run
unfolding object_on
object_to none forge env render actor o r = ran r
object_to (some id) forge env render actor o r =
    object_on (r.trip && o.apply) o.board forge env render actor o id r

-- `mergeGuard`.
unfoldable pub merge_guard : Forge → Env → (Reason → String) → String → Options → Run
unfolding evaluate object_to
merge_guard forge env render actor o =
    let r = evaluate forge o in object_to r.board_state.ticket_id forge env render actor o r

unfoldable pub untargeted_reason : Option SkipReason → Option SkipReason
unfolding skip_class
untargeted_reason none = none
untargeted_reason (some why) = elim (skip_class why) [
  | untargeted ↦ some why
  | unreachable ↦ none
  | inapplicable ↦ none
]

-- `unevaluatedHold`.
unfoldable pub unevaluated_hold : MergeGuardResult → Option SkipReason
unfolding untargeted_reason
unevaluated_hold r =
    if is_some r.board_state.skip_reason
      && is_some r.forge_review.skip_reason
      && is_some r.ci_freshness.skip_reason
    then untargeted_reason r.board_state.skip_reason
      or_else untargeted_reason r.forge_review.skip_reason
      or_else untargeted_reason r.ci_freshness.skip_reason
    else none

-- The exit code of the command.
unfoldable pub exit_code : (strict : Bool) → Run → ℕ
unfolding unevaluated_hold
exit_code strict crashed = 2
exit_code strict (ran r) =
    if strict && r.trip then 1 else if strict && is_some (unevaluated_hold r) then 3 else 0

-- The options as the command fills them in from the registry.
unfoldable pub with_config : Resolution → Options → Options
with_config (resolved c) o = record o {
  merge_checks = c.merge_checks;
  default_branch = c.default_branch;
  repo_eligible = c.repo_eligible;
  ci_irrelevant_paths = c.ci_irrelevant_paths;
  repo_ref = some c.repo_ref;
}
with_config (ambiguous gh_repo paths) o = record o { ci_config_ambiguous = true }
with_config no_config o = o
