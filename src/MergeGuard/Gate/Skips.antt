-- ===== src/MergeGuard/Gate/Skips.antt =====
-- A run in which no axis was evaluated: hub/src/merge-guard.ts.
use dev_loop.Common.{
  String, Bool, true, false, ◌&&◌, ◌||◌, Option, none, some, List, ◌≡◌, ◌∙◌, ap, refl, is_some,
  ◌or_else◌, if◌then◌else◌, arith,
}
use dev_loop.Common.Int.{ℤ}
use dev_loop.Ticket.Env.{Env}
use dev_loop.Store.{Ticket}
use dev_loop.Landing.{Forge}
use dev_loop.Landing.Review.{PrReviewState, read_pr_review_state}
use dev_loop.Landing.Freshness.{Reason}
use dev_loop.MergeGuard.Results.{
  Board, no_path, no_path, no_file, unreadable, opened, Options, SkipReason,
}
use dev_loop.MergeGuard.Tickets.{
  board_axis, ticket_of, find_by_id, judge_found, judge_board, judge_ticket, lookup_given, Lookup,
}
use dev_loop.MergeGuard.Reviews.{review_axis, review_for, review_of, judge_reviews}
use dev_loop.MergeGuard.Checks.{
  ci_axis, ci_for, ci_unless, not_asked, freshness_of, result_of, parse_int,
}
use dev_loop.MergeGuard.Run.{
  MergeGuardResult, ran, evaluate, merge_guard, object_on, object_to, exit_code, unevaluated_hold,
  untargeted_reason,
}

-- No axis that was skipped trips.
board_quiet :
    (l : Lookup) (board : Board) (id : Option String)
    → is_some (judge_found l board id).skip_reason ≡ true
    → (judge_found l board id).trip ≡ false
unfolding judge_found judge_board judge_ticket
board_quiet l board none h = refl
board_quiet l no_path (some id) h = refl
board_quiet l no_file (some id) h = refl
board_quiet l unreadable (some id) h = refl
board_quiet l (opened db) (some id) h = found (find_by_id db id) h
  where
    found :
        (o : Option Ticket)
        → is_some (judge_ticket l.claimed id o).skip_reason ≡ true
        → (judge_ticket l.claimed id o).trip ≡ false
    found none h = refl
    found (some t) h = absurd (cc h)

reviews_quiet :
    (agents : List String) (s : Option PrReviewState)
    → is_some (judge_reviews agents s).skip_reason ≡ true
    → (judge_reviews agents s).trip ≡ false
unfolding judge_reviews
reviews_quiet agents none h = refl
reviews_quiet agents (some s) h = absurd (cc h)

review_of_quiet :
    (forge : Forge) (agents : List String) (repo : Option String) (pr : String)
    → is_some (review_of forge agents repo pr).skip_reason ≡ true
    → (review_of forge agents repo pr).trip ≡ false
unfolding review_of
review_of_quiet forge agents none pr h = refl
review_of_quiet forge agents (some repo) pr h =
    reviews_quiet agents (read_pr_review_state forge repo pr) h

review_quiet :
    (forge : Forge) (o : Options) (pr : Option String)
    → is_some (review_for forge o pr).skip_reason ≡ true
    → (review_for forge o pr).trip ≡ false
unfolding review_for
review_quiet forge o none h = refl
review_quiet forge o (some pr) h = review_of_quiet forge o.agent_reviewers o.gh_repo pr h

freshness_quiet :
    (forge : Forge) (o : Options) (repo : Option String) (n : Option ℤ)
    → is_some (freshness_of forge o repo n).skip_reason ≡ true
    → (freshness_of forge o repo n).trip ≡ false
unfolding freshness_of result_of
freshness_quiet forge o none n h = refl
freshness_quiet forge o (some repo) none h = refl
freshness_quiet forge o (some repo) (some n) h = absurd (cc h)

unless_quiet :
    (forge : Forge) (o : Options) (pr : String) (why : Option SkipReason)
    → is_some (ci_unless forge o pr why).skip_reason ≡ true
    → (ci_unless forge o pr why).trip ≡ false
unfolding ci_unless
unless_quiet forge o pr none h = freshness_quiet forge o o.gh_repo (parse_int pr) h
unless_quiet forge o pr (some why) h = refl

ci_quiet :
    (forge : Forge) (o : Options) (pr : Option String)
    → is_some (ci_for forge o pr).skip_reason ≡ true
    → (ci_for forge o pr).trip ≡ false
unfolding ci_for
ci_quiet forge o none h = refl
ci_quiet forge o (some pr) h =
    unless_quiet forge o pr (not_asked o.ci_config_ambiguous o.repo_eligible o.merge_checks) h

-- The reason is one that the caller can mend.
abbrev pub is_untargeted : Option SkipReason → Bool
is_untargeted why = is_some (untargeted_reason why)

to_quiet :
    (forge : Forge) (env : Env) (render : Reason → String) (actor : String) (o : Options)
    (id : Option String) (r : MergeGuardResult)
    → r.trip ≡ false
    → object_to id forge env render actor o r ≡ ran r
unfolding object_to object_on
to_quiet forge env render actor o none r t = refl
to_quiet forge env render actor o (some id) r t =
    ap (λ x. object_on (x && o.apply) o.board forge env render actor o id r) t

trips_quiet :
    (forge : Forge) (o : Options)
    → is_some (board_axis forge o).skip_reason ≡ true
    → is_some (review_axis forge o).skip_reason ≡ true
    → is_some (ci_axis forge o).skip_reason ≡ true
    → (evaluate forge o).trip ≡ false
unfolding evaluate board_axis review_axis ci_axis
trips_quiet forge o b f c =
    let l = lookup_given forge o.ticket_id o.gh_repo o.pr in
    ground (
      arith,
      board_quiet l o.board (ticket_of forge o) b,
      review_quiet forge o o.pr f,
      ci_quiet forge o o.pr c,
    )

some_of_three :
    (x y z : Option SkipReason)
    → is_some (x or_else y or_else z) ≡ is_some x || is_some y || is_some z
some_of_three (some x) y z = refl
some_of_three none (some y) z = refl
some_of_three none none (some z) = refl
some_of_three none none none = refl

hold_quiet :
    (r : MergeGuardResult)
    → is_some r.board_state.skip_reason ≡ true
    → is_some r.forge_review.skip_reason ≡ true
    → is_some r.ci_freshness.skip_reason ≡ true
    → is_some (unevaluated_hold r)
      ≡ is_untargeted r.board_state.skip_reason
        || is_untargeted r.forge_review.skip_reason
        || is_untargeted r.ci_freshness.skip_reason
unfolding unevaluated_hold
hold_quiet r b f c =
    let x = untargeted_reason r.board_state.skip_reason in
    let y = untargeted_reason r.forge_review.skip_reason in
    let z = untargeted_reason r.ci_freshness.skip_reason in
    let all_skipped : is_some r.board_state.skip_reason
          && is_some r.forge_review.skip_reason
          && is_some r.ci_freshness.skip_reason
        ≡ true =
      ground (arith, b, f, c) in
    ap (λ q. is_some (if q then x or_else y or_else z else none)) all_skipped ∙ some_of_three x y z

exit_quiet :
    (r : MergeGuardResult)
    → r.trip ≡ false
    → is_some r.board_state.skip_reason ≡ true
    → is_some r.forge_review.skip_reason ≡ true
    → is_some r.ci_freshness.skip_reason ≡ true
    → exit_code true (ran r) ≡ (
        if is_untargeted r.board_state.skip_reason
          || is_untargeted r.forge_review.skip_reason
          || is_untargeted r.ci_freshness.skip_reason
        then 3
        else 0)
unfolding exit_code
exit_quiet r t b f c =
    ap (λ x. if x then 1 else if is_some (unevaluated_hold r) then 3 else 0) t
    ∙ ap (λ x. if x then 3 else 0) (hold_quiet r b f c)

-- A run that skipped every axis exits with 3 exactly where one of the reasons is the invocation's, and with
-- 0 where all are outages or do not apply.
pub unevaluated_exit :
    (forge : Forge) (env : Env) (render : Reason → String) (actor : String) (o : Options)
    → is_some (board_axis forge o).skip_reason ≡ true
    → is_some (review_axis forge o).skip_reason ≡ true
    → is_some (ci_axis forge o).skip_reason ≡ true
    → exit_code true (merge_guard forge env render actor o) ≡ (
        if is_untargeted (board_axis forge o).skip_reason
          || is_untargeted (review_axis forge o).skip_reason
          || is_untargeted (ci_axis forge o).skip_reason
        then 3
        else 0)
unfolding merge_guard
unevaluated_exit forge env render actor o b f c =
    let quiet : (evaluate forge o).trip ≡ false = trips_quiet forge o b f c in
    ap (exit_code true) (
      to_quiet forge env render actor o (evaluate forge o).board_state.ticket_id (evaluate forge o)
        quiet)
    ∙ exit_quiet (evaluate forge o) quiet b f c
