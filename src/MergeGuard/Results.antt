-- ===== src/MergeGuard/Results.antt =====
-- What a run of the guard is asked and what it answers, and why an axis is skipped: the types of
-- hub/src/merge-guard.ts.
use dev_loop.Common.{ℕ, String, Bool, true, false, Option, List}
use dev_loop.Store.{
  State, backlog, todo, in_progress, in_review, human_blocked, done, canceled, duplicate, Db,
}
use dev_loop.Landing.Freshness.{Verdict, Reason}

-- `MERGE_ELIGIBILITY`, without its texts.
unfoldable pub is_merge_eligible : State → Bool
is_merge_eligible backlog = true
is_merge_eligible todo = true
is_merge_eligible in_progress = true
is_merge_eligible in_review = false
is_merge_eligible human_blocked = false
is_merge_eligible done = true
is_merge_eligible canceled = false
is_merge_eligible duplicate = false

pub data SkipReason : Type 0 where
  no_ticket_input no_repo_resolved pr_not_a_loop_branch no_pr_arg no_hub_db hub_db_unreadable :
      SkipReason
  forge_unreachable no_merge_checks ci_config_ambiguous repo_not_automerge : SkipReason

pub data SkipClass : Type 0 where
  unreachable untargeted inapplicable : SkipClass

unfoldable pub skip_class : SkipReason → SkipClass
skip_class no_ticket_input = untargeted
skip_class no_repo_resolved = untargeted
skip_class ci_config_ambiguous = untargeted
skip_class no_hub_db = unreachable
skip_class hub_db_unreadable = unreachable
skip_class forge_unreachable = unreachable
skip_class pr_not_a_loop_branch = inapplicable
skip_class no_pr_arg = inapplicable
skip_class no_merge_checks = inapplicable
skip_class repo_not_automerge = inapplicable

-- `MergeGuardBoardStateResult`; `skipped` is that there is a reason.
pub record BoardStateResult : Type 0 where
  pub ticket_id : Option String
  pub ticket_state : Option State
  pub trip : Bool
  pub skip_reason : Option SkipReason
  pub claimed_ticket_ids : List String

pub record ForgeReviewResult : Type 0 where
  pub trip : Bool
  pub skip_reason : Option SkipReason
  pub change_requesters : List String
  pub unresolved_thread_authors : List String

pub record CiFreshnessResult : Type 0 where
  pub trip : Bool
  pub skip_reason : Option SkipReason
  pub verdict : Option Verdict
  pub behind_by : Option ℕ
  pub tested_head : Option String
  pub current_tip : Option String
  pub reason : Option Reason

-- What the resolved path of the board's database gives.
pub data Board : Type 0 where
  no_path no_file unreadable : Board
  opened : Db → Board

-- The options of `mergeGuard`, with what it resolves where one is absent: the repository, the logins of the
-- agents, the branch that the directory has checked out, the board. An empty id is an absent one.
pub record Options : Type 0 where
  pub ticket_id : Option String
  pub pr : Option String
  pub gh_repo : Option String
  pub agent_reviewers : List String
  pub merge_checks : List String
  pub ci_irrelevant_paths : List String
  pub repo_ref : Option String
  pub default_branch : String
  pub repo_eligible : Bool
  pub ci_config_ambiguous : Bool
  pub apply : Bool
  pub head_branch : Option String
  pub board : Board
