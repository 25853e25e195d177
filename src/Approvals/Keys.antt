-- ===== src/Approvals/Keys.antt =====
-- Action keys and expiries of approvals: hub/src/approvals.ts.
use Prim.Native.Nat.{◌^◌}
use Prim.Native.Char.{Char, code}
use dev_loop.Common.{
  ℕ, ◌+◌, ◌-◌, ◌*◌, String, Bool, false, not, ◌&&◌, ◌||◌, Option, none, some, List, [], ◌∷◌, ◌==◌,
  any, length, ltb, leb, eqb, if◌then◌else◌, get_or,
}
use dev_loop.Common.Text.{trim, is_empty, is_digit, is_space, span, drop_span, skip}

-- `ApprovalErrorCode`.
pub data ApprovalErrorCode : Type 0 where
  unknown_action_class missing_component extra_component empty_component control_character :
      ApprovalErrorCode
  bad_expiry ambiguous_grant not_found not_grantable not_revocable not_dischargeable :
      ApprovalErrorCode

-- How many components a class of `ACTION_CLASSES` has.
unfoldable pub components_of : String → Option ℕ
components_of class =
    if class == "npm-publish" || class == "push" || class == "board-restore"
    then some 2
    else if class == "reopen" || class == "remove-project"
    then some 1
    else none

pub record ParsedActionKey : Type 0 where
  pub key : String
  pub action_class : String
  pub values : List String

pub data ParseResult : Type 0 where
  legal : ParsedActionKey → ParseResult
  illegal : ApprovalErrorCode → ParseResult

-- A range of code points, both ends in it.
abbrev within : ℕ → ℕ → ℕ → Bool
within a b c = leb a c && leb c b

-- The categories Cc and Cf.
unfoldable pub is_control : ℕ → Bool
is_control c =
    within 0 0x1f c
    || within 0x7f 0x9f c
    || eqb c 0xad
    || within 0x600 0x605 c
    || eqb c 0x61c
    || eqb c 0x6dd
    || eqb c 0x70f
    || within 0x890 0x891 c
    || eqb c 0x8e2
    || eqb c 0x180e
    || within 0x200b 0x200f c
    || within 0x202a 0x202e c
    || within 0x2060 0x2064 c
    || within 0x2066 0x206f c
    || eqb c 0xfeff
    || within 0xfff9 0xfffb c
    || eqb c 0x110bd
    || eqb c 0x110cd
    || within 0x13430 0x1343f c
    || within 0x1bca0 0x1bca3 c
    || within 0x1d173 0x1d17a c
    || eqb c 0xe0001
    || within 0xe0020 0xe007f c

has_control : String → Bool
unfolding is_control
has_control String.[] = false
has_control (String.◌∷◌ c s) = is_control (code c) || has_control s

push_char : Char → List String → List String
push_char c [] = String.◌∷◌ c String.[] ∷ []
push_char c (t ∷ ts) = String.◌∷◌ c t ∷ ts

-- `raw.split(":")`.
unfoldable pub split_colons : String → List String
unfolding push_char
split_colons String.[] = String.[] ∷ []
split_colons (String.◌∷◌ c s) =
    let rest = split_colons s in if eqb (code c) b':' then String.[] ∷ rest else push_char c rest

parse_parts : String → List String → ParseResult
unfolding components_of has_control trim
parse_parts raw [] = illegal unknown_action_class
parse_parts raw (class ∷ values) = elim (components_of class) [
  | none ↦ illegal unknown_action_class
  | some want ↦
      if ltb (length values) want
      then illegal missing_component
      else if ltb want (length values)
      then illegal extra_component
      else if any (λ v. is_empty (trim v)) values
      then illegal empty_component
      else if any has_control values
      then illegal control_character
      else legal (record { key = raw; action_class = class; values = values })
]

-- `parseActionKey`.
unfoldable pub parse_action_key : String → ParseResult
unfolding parse_parts trim split_colons
parse_action_key key = parse_parts (trim key) (split_colons (trim key))

decimal_from : ℕ → String → ℕ
decimal_from n String.[] = n
decimal_from n (String.◌∷◌ c s) = decimal_from (n * 10 + (code c - b'0')) s

unit_ms : String → Option ℕ
unit_ms u =
    if u == "s"
    then some 1000
    else if u == "m"
    then some 60000
    else if u == "h"
    then some 3600000
    else if u == "d"
    then some 86400000
    else if u == "w"
    then some 604800000
    else none

-- `parseDuration`; the safe integers end at 2^53 - 1.
unfoldable pub parse_duration : String → Option ℕ
unfolding trim span drop_span skip decimal_from unit_ms
parse_duration spec =
    let s = trim spec in
    let digits = span is_digit s in
    let n = decimal_from 0 digits in
    elim (unit_ms (skip is_space (drop_span is_digit s))) [
      | none ↦ none
      | some ms ↦ if is_empty digits || eqb n 0 || not (ltb n (2 ^ 53)) then none else some (n * ms)
    ]

pub data Expiry : Type 0 where
  until : Option ℕ → Expiry
  no_expiry : ApprovalErrorCode → Expiry

-- `resolveExpiry`, from an instant that the clock gave.
unfoldable pub resolve_expiry : Option String → ℕ → Expiry
unfolding trim parse_duration
resolve_expiry spec from =
    let s = trim (get_or spec "24h") in
    if s == "never" then until none else elim (parse_duration s) [
      | none ↦ no_expiry bad_expiry
      | some ms ↦
          if ltb 8640000000000000 (from + ms)
          then no_expiry bad_expiry
          else until (some (from + ms))
    ]
