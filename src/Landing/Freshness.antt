-- ===== src/Landing/Freshness.antt =====
-- Are a pull request's checks green on the current tip: `deltaIsCiIrrelevant` and `readCiFreshness` of
-- hub/src/landing.ts.
pub mod Verified
use dev_loop.Common.{
  ℕ, ◌+◌, ◌-◌, String, Bool, true, false, not, ◌&&◌, ◌||◌, Option, none, some, List, [], ◌∷◌, ◌==◌,
  includes, filter, any, all, length, is_nil, leb, ltb, eqb, get_or, if◌then◌else◌,
}
use dev_loop.Common.Text.{is_prefix, is_empty, last_char}
use dev_loop.Common.Int.{ℤ}
use dev_loop.Landing.{
  Answer, failed, threw, garbled, replied, Check, PrChecks, Compare, Delta, Forge,
}

-- `CiFreshnessVerdict`.
pub data Verdict : Type 0 where
  fresh_green stale stale_exempt red check_never_reported pending unknown : Verdict

-- What a reason says of the files of the delta: how many there are, and the first five.
pub data Composition : Type 0 where
  unavailable no_files : Composition
  touches touches_irrelevant : (count : ℕ) (shown : List String) → Composition

-- The remedy that is printed where no path is configured.
pub data Hint : Type 0 where
  no_hint describe : Hint
  command : (repo_ref : String) → Hint

-- The reason of a verdict, with what its text names.
pub data Reason : Type 0 where
  view_failed compare_failed : (stderr : String) → Reason
  failure not_all_success up_to_date : Reason
  never_reported : (missing : List String) → Reason
  behind : (count : ℕ) (tip : Option String) → Composition → Hint → Reason
  behind_exempt : (count : ℕ) (tip : Option String) → Composition → Reason
  unexpected : (message : String) → Reason

-- `CiFreshness`.
pub record CiFreshness : Type 0 where
  pub verdict : Verdict
  pub behind_by : Option ℕ
  pub tested_head : Option String
  pub current_tip : Option String
  pub reason : Reason

-- Does an entry cover a file: a directory by its prefix, anything else by equality.
unfoldable pub covers : String → String → Bool
covers file path = if last_char path == "/" then is_prefix path file else file == path

-- `deltaIsCiIrrelevant`.
unfoldable pub delta_is_ci_irrelevant : List String → List String → Bool
unfolding covers
delta_is_ci_irrelevant files irrelevant =
    not (is_nil irrelevant) && not (is_nil files) && all (λ f. any (covers f) irrelevant) files

unfoldable pub concluded : String → Check → Bool
concluded value c = elim c.conclusion [ none ↦ false | some v ↦ v == value ]

abbrev pub is_named : String → Check → Bool
is_named need c = c.name == need

-- The merge checks that the rollup does not have.
abbrev pub missing : List String → List Check → List String
missing merge_checks checks = filter (λ need. not (any (is_named need) checks)) merge_checks

unfoldable pub succeeded : List Check → String → Bool
unfolding concluded
succeeded checks need = any (λ c. is_named need c && concluded "SUCCESS" c) checks

-- The verdict of the conclusions alone, where there is one.
unfoldable pub judge_checks : List String → List Check → Option (Verdict × Reason)
unfolding concluded succeeded
judge_checks merge_checks checks =
    let relevant = filter (λ c. includes c.name merge_checks) checks in
    if is_nil merge_checks
    then none
    else if any (concluded "FAILURE") relevant
    then some (red, failure)
    else if not (is_nil (missing merge_checks checks))
    then some (check_never_reported, never_reported (missing merge_checks checks))
    else if not (all (succeeded relevant) merge_checks)
    then some (pending, not_all_success)
    else none

-- `names`.
unfoldable pub file_names : List (Option String) → List String
file_names [] = []
file_names (none ∷ fs) = file_names fs
file_names (some f ∷ fs) = let rest = file_names fs in if is_empty f then rest else f ∷ rest

abbrev more_commits : Option ℕ → Option ℕ → Bool
more_commits none commits = false
more_commits (some total) none = false
more_commits (some total) (some n) = ltb n total

-- The forge listed a prefix of the delta only.
unfoldable pub truncated : Delta → List String → Bool
truncated d names = leb 300 (length names) || more_commits d.total_commits d.commits

abbrev take_five : List String → List String
take_five (a ∷ b ∷ c ∷ d ∷ e ∷ _) = a ∷ b ∷ c ∷ d ∷ e ∷ []
take_five xs = xs

unfoldable pub hint_for : Option String → Hint
hint_for none = describe
hint_for (some ref) = command ref

-- Is the delta exempt, what its reason says of it, and the remedy.
pub record Judged : Type 0 where
  pub exempt : Bool
  pub composition : Composition
  pub hint : Hint

unfoldable pub judge_names : Bool → List String → List String → Option String → Judged
unfolding delta_is_ci_irrelevant hint_for
judge_names cut names irrelevant repo_ref =
    if is_nil names
    then record { exempt = false; composition = no_files; hint = no_hint }
    else if not cut && delta_is_ci_irrelevant names irrelevant
    then record {
      exempt = true;
      composition = touches_irrelevant (length names) (take_five names);
      hint = no_hint;
    }
    else record {
      exempt = false;
      composition = touches (length names) (take_five names);
      hint = if not cut && is_nil irrelevant then hint_for repo_ref else no_hint;
    }

unfoldable pub judge_delta : Delta → List String → Option String → Judged
unfolding judge_names truncated file_names
judge_delta d irrelevant repo_ref =
    let names = file_names (get_or d.files []) in
    judge_names (truncated d names) names irrelevant repo_ref

abbrev unread : Judged
unread = record { exempt = false; composition = unavailable; hint = no_hint }

abbrev pub unexpected_error : String → CiFreshness
unexpected_error message = record {
  verdict = unknown;
  behind_by = none;
  tested_head = none;
  current_tip = none;
  reason = unexpected message;
}

unfoldable pub behind_verdict : ℕ → Option String → Option String → Judged → CiFreshness
behind_verdict n head tip j =
    if j.exempt
    then record {
      verdict = stale_exempt;
      behind_by = some n;
      tested_head = head;
      current_tip = tip;
      reason = behind_exempt n tip j.composition;
    }
    else record {
      verdict = stale;
      behind_by = some n;
      tested_head = head;
      current_tip = tip;
      reason = behind n tip j.composition j.hint;
    }

-- The head is behind: the compare the other way says by which files.
unfoldable pub after_delta :
    ℕ → Option String → Option String → List String → Option String → Answer Delta → CiFreshness
unfolding behind_verdict judge_delta
after_delta n head tip irrelevant repo_ref (threw message) = unexpected_error message
after_delta n head tip irrelevant repo_ref (failed stderr) = behind_verdict n head tip unread
after_delta n head tip irrelevant repo_ref (garbled message) = behind_verdict n head tip unread
after_delta n head tip irrelevant repo_ref (replied d) =
    behind_verdict n head tip (judge_delta d irrelevant repo_ref)

abbrev pub verdict_without_tip : Verdict × Reason → Option String → CiFreshness
verdict_without_tip (v, r) head = record {
  verdict = v;
  behind_by = none;
  tested_head = head;
  current_tip = none;
  reason = r;
}

abbrev pub is_behind : Option ℕ → Bool
is_behind none = false
is_behind (some n) = ltb 0 n

unfoldable pub after_compare :
    Forge
    → String
    → String
    → List String
    → Option String
    → Option String
    → Answer Compare
    → CiFreshness
unfolding after_delta
after_compare forge repo branch irrelevant repo_ref head (failed stderr) =
    verdict_without_tip (unknown, compare_failed stderr) head
after_compare forge repo branch irrelevant repo_ref head (threw message) = unexpected_error message
after_compare forge repo branch irrelevant repo_ref head (garbled message) =
    unexpected_error message
after_compare forge repo branch irrelevant repo_ref head (replied c) =
    if is_behind c.behind_by
    then after_delta (get_or c.behind_by 0) head c.base_commit irrelevant repo_ref
        (forge.delta repo head branch)
    else record {
      verdict = fresh_green;
      behind_by = some (get_or c.behind_by 0);
      tested_head = head;
      current_tip = c.base_commit;
      reason = up_to_date;
    }

unfoldable pub after_judged :
    Forge
    → String
    → String
    → List String
    → Option String
    → Option String
    → Option (Verdict × Reason)
    → CiFreshness
unfolding after_compare
after_judged forge repo branch irrelevant repo_ref head (some v) = verdict_without_tip v head
after_judged forge repo branch irrelevant repo_ref head none =
    after_compare forge repo branch irrelevant repo_ref head (forge.compare repo branch head)

unfoldable pub after_checks :
    Forge
    → String
    → String
    → List String
    → List String
    → Option String
    → Answer PrChecks
    → CiFreshness
unfolding after_judged judge_checks
after_checks forge repo branch merge_checks irrelevant repo_ref (failed stderr) =
    verdict_without_tip (unknown, view_failed stderr) none
after_checks forge repo branch merge_checks irrelevant repo_ref (threw message) =
    unexpected_error message
after_checks forge repo branch merge_checks irrelevant repo_ref (garbled message) =
    unexpected_error message
after_checks forge repo branch merge_checks irrelevant repo_ref (replied d) =
    after_judged forge repo branch irrelevant repo_ref d.head_ref_oid
      (judge_checks merge_checks (get_or d.status_check_rollup []))

-- `readCiFreshness`; an absent list of irrelevant paths is the empty one.
unfoldable pub read_ci_freshness :
    Forge → String → ℤ → List String → String → List String → Option String → CiFreshness
unfolding after_checks
read_ci_freshness forge repo pr merge_checks branch irrelevant repo_ref =
    after_checks forge repo branch merge_checks irrelevant repo_ref (forge.checks repo pr)
