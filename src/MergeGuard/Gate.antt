-- ===== src/MergeGuard/Gate.antt =====
-- What holds a merge under `--strict`: hub/src/merge-guard.ts.
pub mod Checks
pub mod Objections
pub mod Skips
use dev_loop.Common.{
  ◌⊎◌, ℕ, String, Bool, true, false, not, ◌&&◌, ◌||◌, Option, none, some, List, [], ◌∷◌, ◌++◌, ◌==◌,
  ◌≡◌, ◌≢◌, ◌∙◌, ap, refl, includes, filter, any, all, is_nil, is_some, get_or, ◌or_else◌,
  if◌then◌else◌, Bool-cases, Option-cases, inl, inr, arith, eq_iff,
}
use dev_loop.Common.Int.{ℤ}
use dev_loop.Ticket.Env.{Env}
use dev_loop.Store.{Ticket, Db, State, in_review, human_blocked, canceled, duplicate}
use dev_loop.Landing.{Answer, failed, threw, garbled, replied, Forge, PrChecks, Check}
use dev_loop.Landing.Review.{PrReviewState, read_pr_review_state}
use dev_loop.Landing.Freshness.{
  Reason, Verdict, stale, red, check_never_reported, judge_checks, after_checks, after_judged,
  read_ci_freshness, concluded, missing, is_named, verdict_without_tip,
}
use dev_loop.MergeGuard.Results.{is_merge_eligible, Board, no_path, opened, Options, SkipReason}
use dev_loop.MergeGuard.Tickets.{
  board_axis, ticket_of, find_by_id, judge_found, judge_board, judge_ticket, lookup_given,
  checked_out, Lookup,
}
use dev_loop.MergeGuard.Reviews.{review_axis, review_of, judge_reviews, humans}
use dev_loop.MergeGuard.Checks.{ci_axis, freshness_of, result_of, verdict_trips, parse_int}
use dev_loop.MergeGuard.Apply.{Applied, applied, skipped_merged, failed_write, apply_trip}
use dev_loop.MergeGuard.Objection.{build_comment_body}
use dev_loop.MergeGuard.Run.{
  MergeGuardResult, Run, crashed, ran, evaluate, merge_guard, object_on, object_to, object_unless,
  with_applied, exit_code, unevaluated_hold, is_moot, trip_axis,
}

-- The run does not let the merge through.
abbrev pub Held : Run → Type 0
Held run = exit_code true run ≢ 0

tripped-Held : (r : MergeGuardResult) (a : Applied) → r.trip ≡ true → Held (with_applied r a)
unfolding exit_code
tripped-Held r failed_write t h = absurd (cc h)
tripped-Held r (applied action body board) t h = absurd (cc (rw t at h))

ran-Held : (r : MergeGuardResult) → r.trip ≡ true → Held (ran r)
unfolding exit_code
ran-Held r t h = absurd (cc (rw t at h))

module _ (forge : Forge) (env : Env) (render : Reason → String) (actor : String) (o : Options) where
  unless-Held :
      (moot : Bool) (id : String) (r : MergeGuardResult)
      → r.trip ≡ true
      → Held (object_unless moot env render actor o id r)
  unfolding object_unless
  unless-Held true id r t = tripped-Held r (applied skipped_merged none o.board) t
  unless-Held false id r t =
      tripped-Held r
        (apply_trip env (trip_axis r) actor id
          (build_comment_body render o.pr r.forge_review r.board_state r.ci_freshness) o.board)
        t

  on_Held :
      (due : Bool) (board : Board) (id : String) (r : MergeGuardResult)
      → r.trip ≡ true
      → Held (object_on due board forge env render actor o id r)
  unfolding object_on exit_code
  on_Held false board id r t = ran-Held r t
  on_Held true no_path id r t = λ h. absurd (cc h)
  on_Held true board id r t = unless-Held (is_moot forge o) id r t

  to_Held :
      (id : Option String) (r : MergeGuardResult)
      → r.trip ≡ true
      → Held (object_to id forge env render actor o r)
  unfolding object_to
  to_Held none r t = ran-Held r t
  to_Held (some id) r t = on_Held (r.trip && o.apply) o.board id r t

  trip-Held : (evaluate forge o).trip ≡ true → Held (merge_guard forge env render actor o)
  unfolding merge_guard
  trip-Held t = to_Held (evaluate forge o).board_state.ticket_id (evaluate forge o) t

  board_trips :
      (db : Db) (id : String) (t : Ticket)
      → ticket_of forge o ≡ some id
      → o.board ≡ opened db
      → find_by_id db id ≡ some t
      → is_merge_eligible t.state ≡ false
      → (board_axis forge o).trip ≡ true
  unfolding board_axis judge_found judge_board judge_ticket
  board_trips db id t i b f s =
      let l = lookup_given forge o.ticket_id o.gh_repo o.pr in
      ap (λ x. (judge_found l o.board x).trip) i
      ∙ ap (λ x. (judge_board l.claimed id x).trip) b
      ∙ ap (λ x. (judge_ticket l.claimed id x).trip) f
      ∙ ap not s

  pub any_trips :
      (board_axis forge o).trip || (review_axis forge o).trip || (ci_axis forge o).trip ≡ true
      → Held (merge_guard forge env render actor o)
  unfolding evaluate
  any_trips t = trip-Held t

-- The state waits for a verdict or a ruling, or the work was refused.
abbrev pub IsHeldState : State → Type 0
IsHeldState s = (s ≡ in_review) ⊎ (s ≡ human_blocked) ⊎ (s ≡ canceled) ⊎ (s ≡ duplicate)

held_state : (s : State) → IsHeldState s → is_merge_eligible s ≡ false
unfolding is_merge_eligible
held_state s (inl e) = ap is_merge_eligible e
held_state s (inr (inl e)) = ap is_merge_eligible e
held_state s (inr (inr (inl e))) = ap is_merge_eligible e
held_state s (inr (inr (inr e))) = ap is_merge_eligible e

-- The run's ticket, where the board has it in In Review, Human-Blocked, Canceled or Duplicate, holds the
-- merge.
pub held_ineligible :
    (forge : Forge) (env : Env) (render : Reason → String) (actor : String) (o : Options) (db : Db)
    (id : String) (t : Ticket)
    → ticket_of forge o ≡ some id
    → o.board ≡ opened db
    → find_by_id db id ≡ some t
    → IsHeldState t.state
    → exit_code true (merge_guard forge env render actor o) ≢ 0
held_ineligible forge env render actor o db id t i b f s =
    any_trips forge env render actor o
      (ground (arith, board_trips forge env render actor o db id t i b f (held_state t.state s)))
