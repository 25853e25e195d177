-- ===== src/MergeGuard/Reviews.antt =====
-- The axis of the reviews, in `mergeGuard` of hub/src/merge-guard.ts.
use dev_loop.Common.{
  String, false, not, ◌||◌, Option, none, some, List, [], ◌++◌, includes, filter, is_nil,
}
use dev_loop.Landing.{Forge}
use dev_loop.Landing.Review.{PrReviewState, read_pr_review_state}
use dev_loop.MergeGuard.Results.{
  SkipReason, no_repo_resolved, no_pr_arg, forge_unreachable, ForgeReviewResult, Options,
}

abbrev pub skipped_forge : SkipReason → ForgeReviewResult
skipped_forge why = record {
  trip = false;
  skip_reason = some why;
  change_requesters = [];
  unresolved_thread_authors = [];
}

-- The reviewers that are neither listed as agents nor typed as bots.
abbrev pub humans : List String → List String → List String
humans agents logins = filter (λ l. not (includes l agents)) logins

unfoldable pub judge_reviews : List String → Option PrReviewState → ForgeReviewResult
judge_reviews agents none = skipped_forge forge_unreachable
judge_reviews agents (some s) =
    let all_agents = agents ++ s.bot_logins in
    let requesters = humans all_agents s.change_requesters in
    let authors = humans all_agents s.unresolved_thread_authors in
    record {
      trip = not (is_nil requesters) || not (is_nil authors);
      skip_reason = none;
      change_requesters = requesters;
      unresolved_thread_authors = authors;
    }

unfoldable pub review_of : Forge → List String → Option String → String → ForgeReviewResult
unfolding judge_reviews read_pr_review_state
review_of forge agents none pr = skipped_forge no_repo_resolved
review_of forge agents (some repo) pr = judge_reviews agents (read_pr_review_state forge repo pr)

unfoldable pub review_for : Forge → Options → Option String → ForgeReviewResult
unfolding review_of
review_for forge o none = skipped_forge no_pr_arg
review_for forge o (some pr) = review_of forge o.agent_reviewers o.gh_repo pr

-- The axis of the reviews.
unfoldable pub review_axis : Forge → Options → ForgeReviewResult
unfolding review_for
review_axis forge o = review_for forge o o.pr
