-- ===== src/Ticket/Handoff.antt =====
-- The commit and split-tree checks at In Progress → In Review: hub/src/handoff-gate.ts.
use dev_loop.Common.{
  String, Bool, true, false, ◌&&◌, ◌||◌, not, Option, none, some, List, [], ◌∷◌, ◌==◌,
  if◌then◌else◌, is_nil, sort_texts, is_some,
}
use dev_loop.Common.Text.{is_empty, trim, output_lines, split_newlines, has_part, strip_prefix}
use dev_loop.Store.{State, in_progress, in_review}
use dev_loop.Ticket.Env.{Landing, pr, Git, Rejection, no_local_work, split_tree}

-- `git(…).trim()` is not empty, and git did not fail.
says_something : Option String → Bool
unfolding trim
says_something none = false
says_something (some out) = not (is_empty (trim out))

unfoldable pub has_local_work_for : Git → String → String → Bool
unfolding says_something
has_local_work_for git root id =
    says_something (git.log_grep root id) || says_something (git.branch_list root id)

unfoldable pub split_tree_files : Git → String → String → List String
unfolding output_lines sort_texts
split_tree_files git root id = elim (git.diff_naming root id) [
  | none ↦ []
  | some out ↦ sort_texts (output_lines out)
]

-- The loop over the records of `git worktree list --porcelain`.
worktree_in : String → Option String → List String → Option String
unfolding strip_prefix trim has_part
worktree_in id path [] = none
worktree_in id path (l ∷ ls) = elim (strip_prefix "worktree " l) [
  | some rest ↦ worktree_in id (some (trim rest)) ls
  | none ↦
      let later = worktree_in id path ls in
      if is_some (strip_prefix "branch " l) && has_part id l then path else later
]

unfoldable pub worktree_for_ticket : Git → String → String → Option String
unfolding worktree_in split_newlines
worktree_for_ticket git root id = elim (git.worktree_list root) [
  | none ↦ none
  | some out ↦ worktree_in id none (split_newlines out)
]

unfoldable pub split_tree_rejection : Git → String → String → Option Rejection
split_tree_rejection git root id =
    let files = split_tree_files git root id in
    if is_nil files then none else some (split_tree files (worktree_for_ticket git root id))

abbrev pub is_handoff : State → State → Bool
is_handoff in_progress in_review = true
is_handoff _ _ = false

abbrev pub is_pr : Option Landing → Bool
is_pr (some pr) = true
is_pr _ = false

pub record HandoffInput : Type 0 where
  pub id : String
  pub from_state : State
  pub to_state : State
  pub actor : String
  pub repo_root : Option String
  pub landing : Option Landing
  pub is_design_parent : Bool

handoff_at : Git → String → Option String → Option Rejection
handoff_at git id none = none
handoff_at git id (some root) =
    if not (has_local_work_for git root id)
    then some (no_local_work root id)
    else split_tree_rejection git root id

unfoldable pub handoff_gate_rejection : Git → HandoffInput → Option Rejection
unfolding handoff_at
handoff_gate_rejection git inp =
    if not (is_handoff inp.from_state inp.to_state)
      || not (is_pr inp.landing)
      || inp.actor == "operator"
      || inp.is_design_parent
    then none
    else handoff_at git inp.id inp.repo_root
