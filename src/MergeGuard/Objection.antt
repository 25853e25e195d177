-- ===== src/MergeGuard/Objection.antt =====
-- The comment in which the guard objects: `buildCommentBody` of hub/src/merge-guard.ts.
use dev_loop.Common.{String, Option, none, some, List, [], ◌∷◌, is_nil, if◌then◌else◌}
use dev_loop.Common.Text.{append}
use dev_loop.Store.{State, state_name}
use dev_loop.Landing.Freshness.{Verdict, stale, red, check_never_reported, Reason}
use dev_loop.MergeGuard.Results.{BoardStateResult, ForgeReviewResult, CiFreshnessResult}

abbrev newline : String
newline = "\n"

-- `REVIEW_REMEDY`.
abbrev review_remedy : String
review_remedy =
    append
      "   Pushing a fix does NOT resolve a review thread, and CI going green does not either — thread"
      (append newline (
        append "   resolution is a separate action a human or the reviewer must take on the PR." (
          append newline (
            append
              "   Do both: push the fix, THEN resolve each thread (GitHub: 'Resolve conversation' on each, or"
              (append newline (
                append
                  "   `gh api -X PATCH /repos/{owner}/{repo}/pulls/comments/{id}` per thread). The guard re-checks on"
                  (append newline
                    "   the next run; it will keep holding until the thread count reaches zero.")))))))

unfoldable pub remedy_of : Option Verdict → String
remedy_of none = ""
remedy_of (some stale) =
    " Remedy: Step 0.5's re-freshen rebases this PR automatically at the next fire start (authoritative). Manually: rebase onto `origin/<defaultBranch>` and push with `--force-with-lease`; a pushed rebase clears this hold. If the PR tip is no longer behind `origin/<defaultBranch>`, treat this hold as already actioned."
remedy_of (some red) =
    " Remedy: read the failing check's log, fix in the worktree, re-push (Step 0.5's FAILED-check branch; cap ~2 cycles)."
remedy_of (some check_never_reported) =
    " Remedy: the check was never dispatched — this is NOT a wait. Confirm the forge is healthy (`gh run list --branch <head>`; check the forge's status page for an Actions incident), then re-dispatch by pushing to the branch (an empty commit or a rebase with `--force-with-lease`). Do not merge on `mergeStateStatus:CLEAN`: with no branch protection, CLEAN means nothing was measured."
remedy_of (some _) = ""

-- The logins with an `@` each, between commas.
unfoldable pub mentions : List String → String
mentions [] = ""
mentions (l ∷ []) = append "@" l
mentions (l ∷ m ∷ ls) = append "@" (append l (append ", " (mentions (m ∷ ls))))

-- `APPLY_MARKER`.
abbrev pub apply_marker : String
apply_marker = "⛔ merge-guard:"

abbrev pr_ref : Option String → String
pr_ref none = ""
pr_ref (some pr) = append " PR #" pr

unfoldable pub forge_objection : String → ForgeReviewResult → String
unfolding mentions
forge_objection of_pr f =
    if is_nil f.change_requesters
    then append of_pr (
        append " has unresolved review threads from "
          (append (mentions f.unresolved_thread_authors) (append ". Not merged.\n" review_remedy)))
    else append of_pr (
        append " carries CHANGES_REQUESTED from " (
          append (mentions f.change_requesters)
            (append " (unresolved). Not merged.\n" review_remedy)))

abbrev state_text : Option State → String
state_text none = "non-merge-eligible state"
state_text (some s) = state_name s

abbrev reason_text : (Reason → String) → Option Reason → String
reason_text render none = "stale/red"
reason_text render (some r) = render r

-- `buildCommentBody`, given the text of a reason.
unfoldable pub build_comment_body :
    (Reason → String)
    → Option String
    → ForgeReviewResult
    → BoardStateResult
    → CiFreshnessResult
    → String
unfolding forge_objection remedy_of
build_comment_body render pr forge_review board_state ci_freshness = append apply_marker (
    if forge_review.trip
    then forge_objection (pr_ref pr) forge_review
    else if board_state.trip
    then append " ticket is "
        (append (state_text board_state.ticket_state) " (not merge-eligible). Not merged.")
    else if ci_freshness.trip
    then append (pr_ref pr) (
        append " ciFreshness: " (
          append (reason_text render ci_freshness.reason)
            (append ". Not merged." (remedy_of ci_freshness.verdict))))
    else append (pr_ref pr) " objection (no axis details). Not merged.")
