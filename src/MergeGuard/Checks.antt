-- ===== src/MergeGuard/Checks.antt =====
-- The axis of the checks, in `mergeGuard` of hub/src/merge-guard.ts.
use Prim.Native.Char.{code}
use dev_loop.Common.{
  ℕ, ◌+◌, ◌-◌, ◌*◌, String, Bool, true, false, Option, none, List, [], ◌∷◌, some, eqb,
  if◌then◌else◌,
}
use dev_loop.Common.Text.{is_space, is_digit, is_empty, skip, span}
use dev_loop.Common.Int.{ℤ, pos, sub_ℕ}
use dev_loop.Landing.{Forge}
use dev_loop.Landing.Freshness.{
  Verdict, stale, red, check_never_reported, CiFreshness, read_ci_freshness,
}
use dev_loop.MergeGuard.Results.{
  SkipReason, no_repo_resolved, no_pr_arg, forge_unreachable, no_merge_checks, ci_config_ambiguous,
  repo_not_automerge, CiFreshnessResult, Options,
}

abbrev pub skipped_ci : SkipReason → CiFreshnessResult
skipped_ci why = record {
  trip = false;
  skip_reason = some why;
  verdict = none;
  behind_by = none;
  tested_head = none;
  current_tip = none;
  reason = none;
}

decimal : ℕ → String → ℕ
decimal n String.[] = n
decimal n (String.◌∷◌ c s) = decimal (n * 10 + (code c - b'0')) s

abbrev negate : Bool → ℕ → ℤ
negate true n = sub_ℕ 0 n
negate false n = pos n

digits_after : Bool → String → Option ℤ
unfolding decimal span
digits_after minus s =
    let ds = span is_digit s in if is_empty ds then none else some (negate minus (decimal 0 ds))

signed : String → Option ℤ
unfolding digits_after
signed String.[] = none
signed (String.◌∷◌ c s) =
    if eqb (code c) b'-'
    then digits_after true s
    else if eqb (code c) b'+'
    then digits_after false s
    else digits_after false (String.◌∷◌ c s)

-- `parseInt(s, 10)`, with `none` for NaN.
unfoldable pub parse_int : String → Option ℤ
unfolding signed skip
parse_int s = signed (skip is_space s)

-- Does a verdict hold the merge; `CI_FRESHNESS_STALE_TRIPS` is set.
unfoldable pub verdict_trips : Verdict → Bool
verdict_trips red = true
verdict_trips check_never_reported = true
verdict_trips stale = true
verdict_trips _ = false

unfoldable pub result_of : CiFreshness → CiFreshnessResult
unfolding verdict_trips
result_of f = record {
  trip = verdict_trips f.verdict;
  skip_reason = none;
  verdict = some f.verdict;
  behind_by = f.behind_by;
  tested_head = f.tested_head;
  current_tip = f.current_tip;
  reason = some f.reason;
}

unfoldable pub freshness_of : Forge → Options → Option String → Option ℤ → CiFreshnessResult
unfolding result_of read_ci_freshness
freshness_of forge o none pr = skipped_ci no_repo_resolved
freshness_of forge o (some repo) none = skipped_ci forge_unreachable
freshness_of forge o (some repo) (some n) = result_of (
    read_ci_freshness forge repo n o.merge_checks o.default_branch o.ci_irrelevant_paths o.repo_ref)

-- Why the checks are not asked for, if they are not.
unfoldable pub not_asked : (ambiguous eligible : Bool) → List String → Option SkipReason
not_asked true eligible merge_checks = some ci_config_ambiguous
not_asked false false merge_checks = some repo_not_automerge
not_asked false true [] = some no_merge_checks
not_asked false true (c ∷ cs) = none

unfoldable pub ci_unless : Forge → Options → String → Option SkipReason → CiFreshnessResult
unfolding freshness_of parse_int
ci_unless forge o pr (some why) = skipped_ci why
ci_unless forge o pr none = freshness_of forge o o.gh_repo (parse_int pr)

unfoldable pub ci_for : Forge → Options → Option String → CiFreshnessResult
unfolding ci_unless not_asked
ci_for forge o none = skipped_ci no_pr_arg
ci_for forge o (some pr) =
    ci_unless forge o pr (not_asked o.ci_config_ambiguous o.repo_eligible o.merge_checks)

-- The axis of the checks.
unfoldable pub ci_axis : Forge → Options → CiFreshnessResult
unfolding ci_for
ci_axis forge o = ci_for forge o o.pr
