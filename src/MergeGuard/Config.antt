-- ===== src/MergeGuard/Config.antt =====
-- Which repository is gated, and by which checks: `ghRepoFromRemote`, `resolveGhRepo`, `registryGhRepos`
-- and `resolveRegistryCiFreshnessConfig` of hub/src/merge-guard.ts.
use dev_loop.Common.{
  String, Bool, true, false, not, ◌&&◌, Option, none, some, List, [], ◌∷◌, ◌++◌, ◌==◌, filter, find,
  map, dedup, sort_texts, get_or, ◌or_else◌, if◌then◌else◌,
}
use dev_loop.Common.Text.{trim, is_empty}
use dev_loop.Guards.Admission.{extract_gh_repo}

-- An entry of the workspace's registry; entries that are null are left out of the list.
pub record RegistryEntry : Type 0 where
  pub ref : String
  pub path : Option String
  pub remote : Option String
  pub landing_is_pr : Bool
  pub auto_merge : Bool
  pub merge_checks : List String
  pub default_branch : Option String
  pub ci_irrelevant_paths : List String

pub record Registry : Type 0 where
  pub root : String
  pub team_branch : Option String
  pub repos : List RegistryEntry

-- `path.resolve`, where an empty first part is the working directory, and `fs.realpathSync`; `none` where the
-- latter throws.
pub record Paths : Type 0 where
  pub resolve : String → String → String
  pub real_path : String → Option String

-- `ghRepoFromRemote`.
unfoldable pub gh_repo_from_remote : String → Option String
unfolding trim
gh_repo_from_remote remote = extract_gh_repo (trim remote)

unfoldable pub gh_repo_of : Option String → List String
unfolding gh_repo_from_remote
gh_repo_of none = []
gh_repo_of (some remote) = elim (gh_repo_from_remote remote) [ none ↦ [] | some r ↦ r ∷ [] ]

unfoldable pub gh_repos_of : List RegistryEntry → List String
unfolding gh_repo_of
gh_repos_of [] = []
gh_repos_of (e ∷ es) = gh_repo_of e.remote ++ gh_repos_of es

-- `registryGhRepos`.
unfoldable pub registry_gh_repos : Option Registry → List String
unfolding gh_repos_of dedup sort_texts
registry_gh_repos none = []
registry_gh_repos (some ws) = sort_texts (dedup (gh_repos_of ws.repos))

abbrev only_one : List String → Option String
only_one (r ∷ []) = some r
only_one _ = none

-- `resolveGhRepo`, over what `git config --get remote.origin.url` prints, if it succeeds.
unfoldable pub resolve_gh_repo : Option String → Option Registry → Option String
unfolding gh_repo_from_remote registry_gh_repos
resolve_gh_repo none ws = only_one (registry_gh_repos ws)
resolve_gh_repo (some remote) ws =
    gh_repo_from_remote remote or_else only_one (registry_gh_repos ws)

-- `CiFreshnessConfig`.
pub record CiFreshnessConfig : Type 0 where
  pub merge_checks : List String
  pub default_branch : String
  pub repo_eligible : Bool
  pub repo_ref : String
  pub ci_irrelevant_paths : List String

-- `CiFreshnessConfigResolution`.
pub data Resolution : Type 0 where
  resolved : CiFreshnessConfig → Resolution
  ambiguous : (gh_repo : String) (paths : List String) → Resolution
  no_config : Resolution

unfoldable pub config_of : Registry → RegistryEntry → CiFreshnessConfig
config_of ws e = record {
  merge_checks = e.merge_checks;
  default_branch = get_or (e.default_branch or_else ws.team_branch) "main";
  repo_eligible = e.landing_is_pr && e.auto_merge;
  repo_ref = e.ref;
  ci_irrelevant_paths = e.ci_irrelevant_paths;
}

-- Is the directory, by its real path, the entry's.
unfoldable pub is_at : Paths → Registry → String → RegistryEntry → Bool
is_at paths ws real e = elim e.path [
  | none ↦ false
  | some p ↦
      let abs = paths.resolve ws.root p in
      not (is_empty p) && (if get_or (paths.real_path abs) abs == real then true else abs == real)
]

unfoldable pub has_remote : String → RegistryEntry → Bool
unfolding gh_repo_from_remote
has_remote gh_repo e = elim e.remote [
  | none ↦ false
  | some remote ↦ elim (gh_repo_from_remote remote) [ none ↦ false | some r ↦ r == gh_repo ]
]

unfoldable pub resolve_listed : Registry → String → List RegistryEntry → Resolution
unfolding config_of sort_texts
resolve_listed ws gh_repo [] = no_config
resolve_listed ws gh_repo (e ∷ []) = resolved (config_of ws e)
resolve_listed ws gh_repo (e ∷ f ∷ es) =
    ambiguous gh_repo (sort_texts (map (λ x. get_or x.path "<no path>") (e ∷ f ∷ es)))

unfoldable pub resolve_by_remote : Registry → Option String → Resolution
unfolding resolve_listed has_remote
resolve_by_remote ws none = no_config
resolve_by_remote ws (some gh_repo) =
    resolve_listed ws gh_repo (filter (has_remote gh_repo) ws.repos)

unfoldable pub resolve_in : Registry → Option String → Option RegistryEntry → Resolution
unfolding config_of resolve_by_remote
resolve_in ws gh_repo none = resolve_by_remote ws gh_repo
resolve_in ws gh_repo (some e) = resolved (config_of ws e)

-- `resolveRegistryCiFreshnessConfig`.
unfoldable pub resolve_registry_ci_freshness_config :
    Paths → Option Registry → String → Option String → Resolution
unfolding resolve_in is_at
resolve_registry_ci_freshness_config paths none repo_dir gh_repo = no_config
resolve_registry_ci_freshness_config paths (some ws) repo_dir gh_repo =
    let real = get_or (paths.real_path repo_dir) (paths.resolve "" repo_dir) in
    resolve_in ws gh_repo (find (is_at paths ws real) ws.repos)

-- `registryCiFreshnessConfig`.
unfoldable pub registry_ci_freshness_config :
    Paths → Option Registry → String → Option String → Option CiFreshnessConfig
unfolding resolve_registry_ci_freshness_config
registry_ci_freshness_config paths ws repo_dir gh_repo =
    elim (resolve_registry_ci_freshness_config paths ws repo_dir gh_repo) [
      | resolved c ↦ some c
      | _ ↦ none
    ]
