-- ===== src/MergeGuard/Gate/Objections.antt =====
-- A person's objection holds the merge: hub/src/merge-guard.ts, hub/src/landing.ts.
use dev_loop.Common.{
  String, true, false, ◌||◌, some, List, [], ◌∷◌, ◌++◌, ◌≡◌, ◌≢◌, ◌∙◌, ap, refl, includes, is_nil,
  Bool-cases, inl, inr, arith, eq_iff,
}
use dev_loop.Ticket.Env.{Env}
use dev_loop.Landing.{Forge}
use dev_loop.Landing.Review.{PrReviewState, read_pr_review_state}
use dev_loop.Landing.Freshness.{Reason}
use dev_loop.MergeGuard.Results.{Options}
use dev_loop.MergeGuard.Reviews.{review_axis, review_for, review_of, judge_reviews, humans}
use dev_loop.MergeGuard.Gate.{any_trips}
use dev_loop.MergeGuard.Run.{merge_guard, exit_code}

humans_left :
    (agents xs : List String) (l : String)
    → includes l xs ≡ true
    → includes l agents ≡ false
    → is_nil (humans agents xs) ≡ false
humans_left agents [] l h out = absurd (cc h)
humans_left agents (x ∷ xs) l h out = elim (Bool-cases (includes x agents)) [
  | inr person ↦ rw person refl
  | inl agent ↦ rw agent (humans_left agents xs l (ground (arith, h, eq_iff x l, agent, out)) out)
]

judged_trips :
    (agents : List String) (s : PrReviewState) (l : String)
    → includes l s.change_requesters || includes l s.unresolved_thread_authors ≡ true
    → includes l (agents ++ s.bot_logins) ≡ false
    → (judge_reviews agents (some s)).trip ≡ true
unfolding judge_reviews
judged_trips agents s l h out = ground (
  arith,
  humans_left (agents ++ s.bot_logins) s.change_requesters l,
  humans_left (agents ++ s.bot_logins) s.unresolved_thread_authors l,
  h,
  out,
)

review_trips :
    (forge : Forge) (o : Options) (repo pr : String) (s : PrReviewState)
    → o.pr ≡ some pr
    → o.gh_repo ≡ some repo
    → read_pr_review_state forge repo pr ≡ some s
    → (judge_reviews o.agent_reviewers (some s)).trip ≡ true
    → (review_axis forge o).trip ≡ true
unfolding review_axis review_for review_of
review_trips forge o repo pr s p g r t =
    ap (λ x. (review_for forge o x).trip) p
    ∙ ap (λ x. (review_of forge o.agent_reviewers x pr).trip) g
    ∙ ap (λ x. (judge_reviews o.agent_reviewers x).trip) r
    ∙ t

-- A login that requests changes or has an unresolved thread, is not listed as an agent and is not typed as
-- a bot holds the merge.
pub held_objection :
    (forge : Forge) (env : Env) (render : Reason → String) (actor : String) (o : Options)
    (repo pr l : String) (s : PrReviewState)
    → o.pr ≡ some pr
    → o.gh_repo ≡ some repo
    → read_pr_review_state forge repo pr ≡ some s
    → includes l s.change_requesters || includes l s.unresolved_thread_authors ≡ true
    → includes l (o.agent_reviewers ++ s.bot_logins) ≡ false
    → exit_code true (merge_guard forge env render actor o) ≢ 0
held_objection forge env render actor o repo pr l s p g r h out =
    any_trips forge env render actor o (
      ground
        (arith, review_trips forge o repo pr s p g r (judged_trips o.agent_reviewers s l h out)))
