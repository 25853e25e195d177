-- ===== src/Guards/Admission.antt =====
-- The gate on a ticket's way into review: hub/src/review-admission.ts. The answer of `gh` is an argument:
-- the listed pull requests, or `none` where the call or the reading of its output fails.
use dev_loop.Common.{
  ℕ, String, Bool, not, ◌&&◌, ◌||◌, Option, none, some, List, [], ◌∷◌, ◌==◌, find, eqb,
  if◌then◌else◌,
}
use dev_loop.Common.Text.{append, is_empty, is_prefix, strip_prefix, span, drop_span}

abbrev not_slash : ℕ → Bool
not_slash c = not (eqb c b'/')

abbrev in_name : ℕ → Bool
in_name c = not (eqb c b'/') && not (eqb c b'.')

-- `([^/]+\/[^/.]+?)(?:\.git)?$` at the start of a text.
owner_and_name : String → Option String
owner_and_name s =
    let owner = span not_slash s in
    elim (strip_prefix "/" (drop_span not_slash s)) [
      | none ↦ none
      | some rest ↦
          let name = span in_name rest in
          let end = drop_span in_name rest in
          if is_empty owner || is_empty name || not (is_empty end || end == ".git")
          then none
          else some (append owner (append "/" name))
    ]

abbrev after_host : String → Option String
after_host s = elim (strip_prefix "github.com:" s) [
  | none ↦ strip_prefix "github.com/" s
  | some rest ↦ some rest
]

abbrev first_of : Option String → Option String → Option String
first_of none later = later
first_of (some r) later = some r

abbrev repo_at : Option String → Option String
repo_at none = none
repo_at (some rest) = owner_and_name rest

-- `extractGhRepo`: the first place that matches.
unfoldable pub extract_gh_repo : String → Option String
unfolding owner_and_name
extract_gh_repo String.[] = none
extract_gh_repo (String.◌∷◌ c s) =
    first_of (repo_at (after_host (String.◌∷◌ c s))) (extract_gh_repo s)

-- A repository of the workspace's file.
pub record RepoEntry : Type 0 where
  pub landing_is_pr : Bool
  pub auto_merge : Bool
  pub remote : Option String

pub record ReviewWorkspace : Type 0 where
  pub repos : String → Option RepoEntry
  pub refs_of_project : String → List String

pub record PullRequest : Type 0 where
  pub state : String
  pub number : ℕ

-- `AdmissionResult`; a refusal names the pull request.
pub data AdmissionResult : Type 0 where
  admitted : Option PullRequest → AdmissionResult
  refused : PullRequest → AdmissionResult

-- The ref of the label `repo:<ref>`, or the project's only one.
unfoldable pub ref_for : List String → List String → Option String
ref_for labels refs = elim (find (is_prefix "repo:") labels) [
  | some l ↦ strip_prefix "repo:" l
  | none ↦ elim refs [ [] ↦ none | r ∷ rs ↦ elim rs [ [] ↦ some r | _ ∷ _ ↦ none ] ]
]

abbrev gh_of : Option String → Option String
gh_of none = none
gh_of (some r) = extract_gh_repo r

-- The repository on GitHub of an entry that lands by pull requests and merges them itself.
unfoldable pub gated_repo : Option RepoEntry → Option String
gated_repo none = none
gated_repo (some e) = if e.landing_is_pr && e.auto_merge then gh_of e.remote else none

abbrev pub entry_for : ReviewWorkspace → Option String → Option RepoEntry
entry_for ws none = none
entry_for ws (some ref) = ws.repos ref

unfoldable pub judge_listed : Option (List PullRequest) → AdmissionResult
judge_listed none = admitted none
judge_listed (some []) = admitted none
judge_listed (some (pr ∷ prs)) = if pr.state == "MERGED" then admitted (some pr) else refused pr

unfoldable pub judge_listed_in :
    Option String → (String → Option (List PullRequest)) → AdmissionResult
unfolding judge_listed
judge_listed_in none list = admitted none
judge_listed_in (some repo) list = judge_listed (list repo)

unfoldable pub admission_in :
    Option ReviewWorkspace
    → String
    → List String
    → (String → Option (List PullRequest))
    → AdmissionResult
unfolding judge_listed_in ref_for gated_repo
admission_in none project labels list = admitted none
admission_in (some ws) project labels list =
    judge_listed_in (gated_repo (entry_for ws (ref_for labels (ws.refs_of_project project)))) list

-- `checkReviewAdmission`. `admit_unlanded` is the operator's variable, and `list` lists the pull
-- requests of the ticket's branch in a repository.
unfoldable pub check_review_admission :
    Bool
    → Option ReviewWorkspace
    → (project current_state : String) → List String
    → (String → Option (List PullRequest))
    → AdmissionResult
unfolding admission_in
check_review_admission admit_unlanded ws project current_state labels list =
    if not (current_state == "In Progress") || admit_unlanded
    then admitted none
    else admission_in ws project labels list
