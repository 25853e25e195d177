-- ===== src/Ticket/Env.antt =====
-- What a write reads besides the store: the clock, the fire that makes it, the workspace's
-- configuration and the answers of git. Also the refusals of a write.
use dev_loop.Common.{ℕ, String, Bool, Option, List}
use dev_loop.Store.{State, Fire}

pub data Landing : Type 0 where
  pr direct : Landing

pub data HumanBlockedMode : Type 0 where
  on off : HumanBlockedMode

-- An entry of a project's repositories.
pub record RepoRef : Type 0 where
  pub ref : String
  pub is_primary : Bool

pub record EffectiveRepo : Type 0 where
  pub abs_path : String
  pub landing : Landing
  pub default_branch : String

-- The resolved configuration. `none` for a repository is a reference that the file does not have,
-- on which the reader throws.
pub record Workspace : Type 0 where
  pub repos_of_project : String → List RepoRef
  pub effective_repo : String → Option EffectiveRepo
  pub has_project : String → Bool
  pub human_blocked : String → HumanBlockedMode
  pub ac_completeness_gate : Bool
  pub unlanded_work_gate : Bool

-- The standard output of each git command that the gates run; `none` where it exits with an error.
pub record Git : Type 0 where
  pub log_grep : (root id : String) → Option String
  pub branch_list : (root id : String) → Option String
  pub diff_naming : (root id : String) → Option String
  pub worktree_list : (root : String) → Option String
  pub for_each_ref : (root : String) → Option String
  pub rev_parse : (root ref : String) → Option String
  pub rev_list : (root base ref : String) → Option String
  pub merge_base : (root base ref : String) → Option String
  pub diff_names : (root from to : String) → Option String
  pub diff_names_of : (root from to : String) (paths : List String) → Option String

pub record Env : Type 0 where
  pub now : ℕ
  pub uuid : String
  pub fire : Fire
  pub workspace : Option Workspace
  pub git : Git

-- A branch with work that the base does not have.
pub record Residue : Type 0 where
  pub branch : String
  pub paths : List String

-- One constructor for each refusal, with what its message names.
pub data Rejection : Type 0 where
  human_blocked_is_off : (actor : String) → Rejection
  terminal_exit : (from to : State) → Rejection
  staging_deploy : Rejection
  design_parent_not_pm : (id actor : String) → Rejection
  stranded_children : (id : String) (children : List String) → Rejection
  no_local_work : (root id : String) → Rejection
  split_tree : (files : List String) (worktree : Option String) → Rejection
  unchecked_boxes : (unchecked total : ℕ) → Rejection
  unlanded_work : (stranded : List Residue) → Rejection
  done_without_review : Rejection
  not_owner : (actor : String) (owners : List String) → Rejection
  create_done : (actor : String) (owners : List String) → Rejection
  ambiguous_tier : (labels : List String) → Rejection
  malformed_ruling no_ruling_reason : Rejection
  agent_ruling : (actor : String) → Rejection
  title_required body_required : Rejection
  no_such_ticket : (id : String) → Rejection
  invalid_state : (state : String) → Rejection
  unknown_assignee : (handle : String) → Rejection
  unknown_project id_taken : Rejection
