-- ===== src/Release.antt =====
-- What a release dispatch does: `releaseDecision` of hub/src/release-mode.ts.
pub mod Table
pub mod Examples
use Prim.Native.Char.{code}
use dev_loop.Common.{
  String, Bool, true, false, not, ◌&&◌, ◌||◌, Option, none, some, ◌==◌, eqb, if◌then◌else◌, get_or,
}
use dev_loop.Common.Text.{append, is_digit, is_empty, is_letter, span, drop_span}

pub data ReleaseMode : Type 0 where
  fresh resume refuse : ReleaseMode

pub record ReleaseFacts : Type 0 where
  pub version : String
  pub tag_exists : Bool
  pub npm_exists : Bool
  pub ref_type : String
  pub package_name : Option String

pub record ReleaseDecision : Type 0 where
  pub mode : ReleaseMode
  pub publish_ref : String
  pub reason : String

-- What stands behind a dot.
after_dot : String → Option String
after_dot String.[] = none
after_dot (String.◌∷◌ c s) = if eqb (code c) b'.' then some s else none

-- What stands behind `\d+`.
after_number : String → Option String
unfolding span drop_span
after_number s = if is_empty (span is_digit s) then none else some (drop_span is_digit s)

all_tag : String → Bool
all_tag String.[] = true
all_tag (String.◌∷◌ c s) =
    (is_digit (code c) || is_letter (code c) || eqb (code c) b'.' || eqb (code c) b'-') && all_tag s

-- `(-[0-9A-Za-z.-]+)?$`.
ends_version : String → Bool
unfolding all_tag
ends_version String.[] = true
ends_version (String.◌∷◌ c s) = eqb (code c) b'-' && not (is_empty s) && all_tag s

-- `SEMVER_RE.test(version)`.
unfoldable pub is_semver : String → Bool
unfolding after_number after_dot ends_version
is_semver version = elim (after_number version) [
  | none ↦ false
  | some a ↦ elim (after_dot a) [
    | none ↦ false
    | some b ↦ elim (after_number b) [
      | none ↦ false
      | some c ↦ elim (after_dot c) [
        | none ↦ false
        | some d ↦ elim (after_number d) [ none ↦ false | some e ↦ ends_version e ]
      ]
    ]
  ]
]

abbrev pub tag_ref : String → String
tag_ref version = append "refs/tags/v" version

refused : String → ReleaseDecision
refused reason = record { mode = refuse; publish_ref = ""; reason = reason }

unfoldable pub release_decision : ReleaseFacts → ReleaseDecision
unfolding refused
release_decision f =
    let pkg = get_or f.package_name "the package" in
    if not (is_semver f.version)
    then refused
        (append "version '" (append f.version "' is not bare semver — reconcile manually."))
    else if not (f.ref_type == "branch")
    then refused (append "Run this workflow from a branch, not " (append f.ref_type "."))
    else if f.tag_exists && f.npm_exists
    then refused (append "v" (append f.version " is already fully released (tag + npm)."))
    else if f.tag_exists
    then record {
      mode = resume;
      publish_ref = tag_ref f.version;
      reason = append "Tag v" (
          append f.version (
            append " exists but " (
              append pkg (
                append "@" (
                  append f.version
                    " is not on npm — resuming publish from the tag (the branch tip is not consulted).")))));
    }
    else if f.npm_exists
    then refused (
        append pkg (
          append "@" (
            append f.version (
              append " is on npm but tag v"
                (append f.version " is missing — reconcile manually.")))))
    else record {
      mode = fresh;
      publish_ref = "";
      reason =
          append "Cutting a fresh release of v" (append f.version " from the checked-out branch.");
    }
