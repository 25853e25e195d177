-- ===== src/Landing/Stall.antt =====
-- Does work stop at the forge: `readLandingState` of hub/src/landing.ts, for one repository of the registry.
-- Ages are milliseconds where the source has days.
pub mod Evidence
use dev_loop.Common.{
  ℕ, ◌+◌, ◌*◌, String, Bool, true, false, not, ◌&&◌, ◌||◌, Option, none, some, List, [], ◌∷◌, ◌++◌,
  ◌==◌, eqb, filter, any, all, includes, dedup, length, is_nil, is_some, leb, ltb, get_or,
  if◌then◌else◌,
}
use dev_loop.Common.Text.{is_prefix, after_prefix, strip_prefix, span, drop_span, is_empty, append}
use dev_loop.Common.Int.{ℤ, pos, ◌-ℤ◌, ltb_ℤ}
use dev_loop.Landing.Remote.{extract_github_repo, is_auth_error, is_rejection}
use dev_loop.PrTickets.{ticket_from_branch}
use dev_loop.Landing.{Answer, failed, threw, garbled, replied, Check}

-- An item of `pr list --state open`; absent fields are `none`, and a rollup is the names of its checks.
pub record OpenPr : Type 0 where
  pub number : ℕ
  pub head_ref_name : String
  pub created_at : ℕ
  pub mergeable : Option String
  pub url : String
  pub rollup : Option (List String)

pub record MergedPr : Type 0 where
  pub head_ref_name : String
  pub merged_at : ℕ

-- An entry of the registry, with its effective branch.
pub record LandingRepo : Type 0 where
  pub ref : String
  pub landing_is_pr : Bool
  pub auto_merge : Bool
  pub remote : Option String
  pub default_branch : String
  pub merge_checks : List String

pub record LandingForge : Type 0 where
  pub list_open : (repo : String) → Answer (List OpenPr)
  pub check_runs : (repo branch : String) → Answer (List Check)
  pub list_merged : (repo : String) → Answer (List MergedPr)

pub data BaseChecks : Type 0 where
  green red unknown : BaseChecks

-- Why a repository is not judged, or stalls, with what the text names.
pub data LandingReason : Type 0 where
  direct_landing no_remote no_github invalid_json not_authenticated forge_is_unreachable :
      LandingReason
  call_threw rejected_arguments red_base : String → LandingReason
  missing_checks : (open_prs : ℕ) (names : List String) → LandingReason
  too_old : (open_prs : ℕ) → LandingReason

pub record PrLink : Type 0 where
  pub ticket : String
  pub pr : ℕ
  pub url : String

-- What is read of a repository whose open pull requests were listed.
pub record LandingFacts : Type 0 where
  pub open_loop_prs : ℕ
  pub oldest_age : Option ℤ
  pub base_checks : BaseChecks
  pub merged_in_window : Option ℕ
  pub prs : List PrLink

-- `LandingState` without its ref.
pub data LandingState : Type 0 where
  not_judged : LandingReason → LandingState
  unreadable : LandingReason → LandingState
  stalled : LandingReason → LandingFacts → LandingState
  healthy : LandingFacts → LandingState

-- Why the list of open pull requests was refused.
unfoldable pub refusal_reason : String → LandingReason
unfolding is_auth_error is_rejection
refusal_reason stderr =
    if is_auth_error stderr
    then not_authenticated
    else if is_rejection stderr
    then rejected_arguments stderr
    else forge_is_unreachable

abbrev concluded_as : String → Check → Bool
concluded_as value c = elim c.conclusion [ none ↦ false | some v ↦ v == value ]

unfoldable pub judge_runs : List String → List Check → BaseChecks
judge_runs merge_checks runs =
    let relevant = filter (λ c. includes c.name merge_checks) runs in
    if is_nil relevant
    then unknown
    else if any (concluded_as "failure") relevant
    then red
    else if all (concluded_as "success") relevant
    then green
    else unknown

unfoldable pub runs_answer : List String → Answer (List Check) → BaseChecks
unfolding judge_runs
runs_answer merge_checks (replied runs) = judge_runs merge_checks runs
runs_answer merge_checks _ = unknown

-- `readBaseChecks`.
unfoldable pub read_base_checks : LandingForge → String → List String → String → BaseChecks
unfolding runs_answer
read_base_checks forge repo merge_checks branch =
    if is_nil merge_checks then unknown else runs_answer merge_checks (forge.check_runs repo branch)

abbrev is_loop_branch : String → Bool
is_loop_branch branch = is_prefix "dev-loop/" branch

unfoldable pub merged_answer : ℕ → ℕ → Answer (List MergedPr) → Option ℕ
unfolding is_prefix
merged_answer now window (replied ps) =
    some
      (length (filter (λ p. is_loop_branch p.head_ref_name && leb now (p.merged_at + window)) ps))
merged_answer now window _ = none

-- `readMergedInWindow`.
unfoldable pub read_merged_in_window : LandingForge → String → ℕ → ℕ → Option ℕ
unfolding merged_answer
read_merged_in_window forge repo now window = merged_answer now window (forge.list_merged repo)

abbrev max_ℤ : ℤ → ℤ → ℤ
max_ℤ a b = if ltb_ℤ a b then b else a

unfoldable pub oldest_age_of : ℕ → List OpenPr → Option ℤ
oldest_age_of now [] = none
oldest_age_of now (p ∷ ps) =
    let age = pos now -ℤ pos p.created_at in
    elim (oldest_age_of now ps) [ none ↦ some age | some older ↦ some (max_ℤ age older) ]

unfoldable pub links_of : List OpenPr → List PrLink
unfolding ticket_from_branch
links_of [] = []
links_of (p ∷ ps) =
    let rest = links_of ps in
    elim (ticket_from_branch p.head_ref_name) [
      | none ↦ rest
      | some id ↦ record { ticket = id; pr = p.number; url = p.url } ∷ rest
    ]

abbrev pub is_red : BaseChecks → Bool
is_red red = true
is_red _ = false

abbrev is_green : BaseChecks → Bool
is_green green = true
is_green _ = false

-- `LANDING_STALL_DAYS` in milliseconds.
abbrev pub stall_ms : ℕ
stall_ms = 2 * (24 * 60 * 60 * 1000)

abbrev merge_unblocked : Option String → Bool
merge_unblocked none = true
merge_unblocked (some m) = m == "MERGEABLE" || m == "UNKNOWN"

-- `hasThresholdStall` of one pull request.
unfoldable pub is_overdue : ℕ → BaseChecks → OpenPr → Bool
is_overdue now base p =
    ltb (p.created_at + stall_ms) now && not (merge_unblocked p.mergeable && is_green base)

-- The required checks that a rollup lacks; a rollup that was not returned lacks none.
unfoldable pub lacks : List String → OpenPr → List String
lacks merge_checks p = elim p.rollup [
  | none ↦ []
  | some names ↦ filter (λ need. not (includes need names)) merge_checks
]

unfoldable pub all_lacking : List String → List OpenPr → List String
unfolding lacks
all_lacking merge_checks [] = []
all_lacking merge_checks (p ∷ ps) = lacks merge_checks p ++ all_lacking merge_checks ps

-- Stalled, or healthy.
unfoldable pub classify : ℕ → LandingRepo → LandingFacts → List OpenPr → LandingState
unfolding is_overdue all_lacking dedup
classify now repo facts loop_open =
    let lacking = dedup (all_lacking repo.merge_checks loop_open) in
    if is_red facts.base_checks && not (is_nil loop_open)
    then stalled (red_base repo.default_branch) facts
    else if not (is_nil lacking)
    then stalled (missing_checks (length loop_open) lacking) facts
    else if any (is_overdue now facts.base_checks) loop_open
    then stalled (too_old (length loop_open)) facts
    else healthy facts

unfoldable pub loop_prs : List OpenPr → List OpenPr
unfolding is_prefix
loop_prs ps = filter (λ p. is_loop_branch p.head_ref_name) ps

unfoldable pub facts_of : LandingForge → ℕ → ℕ → LandingRepo → String → List OpenPr → LandingFacts
unfolding read_base_checks read_merged_in_window oldest_age_of links_of
facts_of forge now window repo gh_repo loop_open = record {
  open_loop_prs = length loop_open;
  oldest_age = oldest_age_of now loop_open;
  base_checks = read_base_checks forge gh_repo repo.merge_checks repo.default_branch;
  merged_in_window = read_merged_in_window forge gh_repo now window;
  prs = links_of loop_open;
}

unfoldable pub judge_open :
    LandingForge → ℕ → ℕ → LandingRepo → String → Answer (List OpenPr) → LandingState
unfolding classify facts_of loop_prs refusal_reason
judge_open forge now window repo gh_repo (threw message) = unreadable (call_threw message)
judge_open forge now window repo gh_repo (failed stderr) = unreadable (refusal_reason stderr)
judge_open forge now window repo gh_repo (garbled message) = unreadable invalid_json
judge_open forge now window repo gh_repo (replied ps) =
    let loop_open = loop_prs ps in
    classify now repo (facts_of forge now window repo gh_repo loop_open) loop_open

unfoldable pub read_of_remote : LandingForge → ℕ → ℕ → LandingRepo → Option String → LandingState
unfolding judge_open
read_of_remote forge now window repo none = not_judged no_github
read_of_remote forge now window repo (some gh_repo) =
    judge_open forge now window repo gh_repo (forge.list_open gh_repo)

abbrev pub is_blank_remote : Option String → Bool
is_blank_remote none = true
is_blank_remote (some r) = is_empty r

-- `readLandingState`, for one entry.
unfoldable pub read_landing_state : LandingForge → ℕ → ℕ → LandingRepo → LandingState
unfolding read_of_remote extract_github_repo
read_landing_state forge now window repo =
    if not (repo.landing_is_pr && repo.auto_merge)
    then not_judged direct_landing
    else if is_blank_remote repo.remote
    then not_judged no_remote
    else read_of_remote forge now window repo (extract_github_repo (get_or repo.remote ""))
