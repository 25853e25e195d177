-- ===== src/Guards/Stage.antt =====
-- The guard on staged files: hub/src/stage-guard.ts. The answer of git and the record of the fire's
-- start are arguments.
use dev_loop.Common.{
  ℕ, String, Bool, true, false, not, ◌||◌, Option, none, some, List, [], ◌∷◌, ◌==◌, map, filter,
  includes, is_nil, is_some, sort_texts, if◌then◌else◌,
}
use dev_loop.Common.Text.{is_empty, trim, split_newlines}

-- `StageGuardResult`; `armed` is false with the reason that no record exists.
pub record StageGuardResult : Type 0 where
  pub staged : List String
  pub preexisting : List String
  pub is_ok : Bool
  pub armed : Bool

unfoldable pub evaluate_staged : List String → Option (List String) → StageGuardResult
evaluate_staged staged none = record {
  staged = staged;
  preexisting = [];
  is_ok = true;
  armed = false;
}
evaluate_staged staged (some pre) =
    let preexisting = filter (λ f. includes f pre) staged in
    record { staged = staged; preexisting = preexisting; is_ok = is_nil preexisting; armed = true }

-- The output of `git diff --cached --name-only`; `none` where git fails.
unfoldable pub staged_files : Option String → List String
staged_files none = []
staged_files (some out) =
    sort_texts (filter (λ s. not (is_empty s)) (map trim (split_newlines out)))

pub record Args : Type 0 where
  pub repo : Option String
  pub override : Option String
  pub as_json : Bool

pub data ParsedArgs : Type 0 where
  help : ParsedArgs
  unknown_flag : String → ParsedArgs
  parsed : Args → ParsedArgs

abbrev takes_value : String → Bool
takes_value a = a == "--repo" || a == "--override"

abbrev set_value : String → Option String → Args → Args
set_value a v args =
    if a == "--repo" then record args { repo = v } else record args { override = v }

abbrev is_help : String → Bool
is_help a = a == "--help" || a == "-h"

-- The loop over the arguments; a flag that wants a value takes the next one, whatever it is.
unfoldable pub parse_args : List String → Args → ParsedArgs
parse_args [] args = parsed args
parse_args (a ∷ []) args =
    if is_help a
    then help
    else if takes_value a
    then parsed (set_value a none args)
    else if a == "--json"
    then parsed (record args { as_json = true })
    else unknown_flag a
parse_args (a ∷ b ∷ rest) args =
    let behind_value = parse_args rest (set_value a (some b) args) in
    let next = parse_args (b ∷ rest) (record args { as_json = true }) in
    if is_help a
    then help
    else if takes_value a
    then behind_value
    else if a == "--json"
    then next
    else unknown_flag a

abbrev is_blank : Option String → Bool
is_blank none = false
is_blank (some o) = is_empty (trim o)

unfoldable pub exit_of : Option String → StageGuardResult → ℕ
exit_of override res =
    if is_blank override then 2 else if res.is_ok then 0 else if is_some override then 0 else 3

stage_guard_on : ParsedArgs → Option String → Option (List String) → ℕ
unfolding exit_of evaluate_staged staged_files
stage_guard_on help diff pre = 0
stage_guard_on (unknown_flag a) diff pre = 2
stage_guard_on (parsed args) diff pre =
    exit_of args.override (evaluate_staged (staged_files diff) pre)

-- `stageGuardCmd`: the exit code.
unfoldable pub stage_guard_cmd : List String → Option String → Option (List String) → ℕ
unfolding stage_guard_on parse_args
stage_guard_cmd argv diff pre =
    stage_guard_on (parse_args argv record { repo = none; override = none; as_json = false }) diff
      pre
