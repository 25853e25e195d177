-- ===== src/Landing/Freshness/Verified.antt =====
-- What a green verdict is worth: `readCiFreshness` of hub/src/landing.ts.
use dev_loop.Common.{
  String, Bool, true, false, Option, none, some, List, [], ◌≡◌, ◌⊎◌, includes, filter, any, all,
  is_nil, get_or,
}
use dev_loop.Landing.{replied, PrChecks, Compare, Delta, Forge}
use dev_loop.Landing.Freshness.{
  Verdict, fresh_green, stale_exempt, Reason, covers, concluded, succeeded, file_names, truncated,
  is_behind,
}

-- The verdict lets a pull request through as green.
abbrev pub is_green : Verdict → Bool
is_green fresh_green = true
is_green stale_exempt = true
is_green _ = false

-- Every merge check has a successful entry in the rollup, and no merge check a failed one.
abbrev pub ArePassed : List String → PrChecks → Type 0
ArePassed merge_checks d =
    let relevant = filter (λ c. includes c.name merge_checks) (get_or d.status_check_rollup []) in
    (is_nil merge_checks ≡ true)
    ⊎ (all (succeeded relevant) merge_checks ≡ true) × (any (concluded "FAILURE") relevant ≡ false)

-- The forge listed the whole delta, it has a file, and each of its files is covered by a configured path.
abbrev pub IsHarmless : List String → Delta → Type 0
IsHarmless irrelevant d =
    let names = file_names (get_or d.files []) in
    (is_nil names ≡ false)
    × (truncated d names ≡ false)
    × (all (λ f. any (covers f) irrelevant) names ≡ true)

abbrev judged_green : Option (Verdict × Reason) → Bool
judged_green none = false
judged_green (some (v, r)) = is_green v

module _ (forge : Forge) (repo branch : String) (irrelevant : List String)
    (repo_ref : Option String) where
  -- The head has the tip, or what it lacks is harmless.
  abbrev pub IsCurrent : Option String → Type 0
  IsCurrent head =
      (c : Compare) × (forge.compare repo branch head ≡ replied c)
      × ((is_behind c.behind_by ≡ false)
          ⊎ ((d : Delta) × (forge.delta repo head branch ≡ replied d) × IsHarmless irrelevant d))
