-- ===== src/Common/Text.antt =====
-- What the markers of tickets and comments use of JavaScript's strings and regular expressions:
-- lines, blanks, letters compared without case, and prefixes.
use Prim.Native.Nat.{ℕ, zero, suc, ◌+◌, ◌/◌, ◌%◌}
use Prim.Native.Char.{Char, code}
use Prim.Native.String.{String, [], ◌∷◌, char_at}
use mathlib.Core.Bool.{Bool, true, false, ◌&&◌, ◌||◌}
use mathlib.Core.Option.{Option, none, some}
use mathlib.Core.List.{List}
use dev_loop.Common.Booleans.{leb, ltb, eqb, if◌then◌else◌}

-- The class `\s`, which `trim` strips too.
abbrev pub is_space : ℕ → Bool
is_space c =
    leb 9 c && leb c 13
    || eqb c 32
    || eqb c 160
    || eqb c 0x1680
    || leb 0x2000 c && leb c 0x200a
    || eqb c 0x2028
    || eqb c 0x2029
    || eqb c 0x202f
    || eqb c 0x205f
    || eqb c 0x3000
    || eqb c 0xfeff

-- The class `[ \t]`.
abbrev pub is_blank : ℕ → Bool
is_blank c = eqb c 32 || eqb c 9

abbrev pub is_newline : ℕ → Bool
is_newline c = eqb c 10

abbrev pub is_upper : ℕ → Bool
is_upper c = leb b'A' c && leb c b'Z'

abbrev pub is_letter : ℕ → Bool
is_letter c = is_upper c || leb b'a' c && leb c b'z'

abbrev pub is_digit : ℕ → Bool
is_digit c = leb b'0' c && leb c b'9'

abbrev pub lower : ℕ → ℕ
lower c = if is_upper c then c + 32 else c

abbrev pub is_empty : String → Bool
is_empty [] = true
is_empty (c ∷ s) = false

-- `s.trimStart()`, or what `\s*` and `[ \t]*` pass over at the start.
unfoldable pub skip : (ℕ → Bool) → String → String
skip p [] = []
skip p (c ∷ s) = let rest = skip p s in if p (code c) then rest else c ∷ s

-- `s.trimEnd()`.
unfoldable pub skip_end : (ℕ → Bool) → String → String
skip_end p [] = []
skip_end p (c ∷ s) = let rest = skip_end p s in if p (code c) && is_empty rest then [] else c ∷ rest

unfoldable pub trim : String → String
unfolding skip skip_end
trim s = skip_end is_space (skip is_space s)

-- What follows a prefix that is compared without case.
unfoldable pub after_prefix : String → String → Option String
after_prefix [] s = some s
after_prefix (p ∷ ps) [] = none
after_prefix (p ∷ ps) (c ∷ s) =
    let rest = after_prefix ps s in if eqb (lower (code p)) (lower (code c)) then rest else none

-- Equality without case.
unfoldable pub same_word : String → String → Bool
same_word [] [] = true
same_word [] (c ∷ s) = false
same_word (p ∷ ps) [] = false
same_word (p ∷ ps) (c ∷ s) = eqb (lower (code p)) (lower (code c)) && same_word ps s

-- The longest start of the text whose characters all pass.
unfoldable pub span : (ℕ → Bool) → String → String
span p [] = []
span p (c ∷ s) = let rest = span p s in if p (code c) then c ∷ rest else []

push_first : Char → List String → List String
push_first c List.[] = List.◌∷◌ (c ∷ []) List.[]
push_first c (List.◌∷◌ l ls) = List.◌∷◌ (c ∷ l) ls

starts_newline : String → Bool
starts_newline [] = false
starts_newline (c ∷ s) = is_newline (code c)

-- `s.split(/\r?\n/)`.
unfoldable pub lines : String → List String
unfolding push_first starts_newline
lines [] = List.◌∷◌ [] List.[]
lines (c ∷ s) =
    let rest = lines s in
    if is_newline (code c)
    then List.◌∷◌ [] rest
    else if eqb (code c) 13 && starts_newline s
    then rest
    else push_first c rest

unfoldable pub is_prefix : String → String → Bool
is_prefix [] s = true
is_prefix (p ∷ ps) [] = false
is_prefix (p ∷ ps) (c ∷ s) = eqb (code p) (code c) && is_prefix ps s

-- Is `t` a part of `s`: `s.includes(t)`.
unfoldable pub has_part : String → String → Bool
unfolding is_prefix
has_part t [] = is_empty t
has_part t (c ∷ s) = is_prefix t (c ∷ s) || has_part t s

-- What stands behind a prefix: `s.slice(p.length)` where `s` starts with `p`.
unfoldable pub strip_prefix : String → String → Option String
strip_prefix [] s = some s
strip_prefix (p ∷ ps) [] = none
strip_prefix (p ∷ ps) (c ∷ s) =
    let rest = strip_prefix ps s in if eqb (code p) (code c) then rest else none

-- `s + t`.
abbrev pub append : String → String → String
append [] t = t
append (c ∷ s) t = c ∷ append s t

-- The decimal digits of a number before `rest`.
print_from : ℕ → ℕ → String → String
print_from zero n rest = rest
print_from (suc fuel) n rest =
    let here = char_at "0123456789" (n % 10) ∷ rest in
    let more = print_from fuel (n / 10) here in if ltb n 10 then here else more

-- `${n}`.
unfoldable pub print_ℕ : ℕ → String
unfolding print_from
print_ℕ n = print_from (suc n) n []

-- What stands behind `span`.
unfoldable pub drop_span : (ℕ → Bool) → String → String
drop_span p [] = []
drop_span p (c ∷ s) = let rest = drop_span p s in if p (code c) then rest else c ∷ s

unfoldable pub last_char : String → String
last_char [] = []
last_char (c ∷ s) = let rest = last_char s in if is_empty s then c ∷ [] else rest

-- The line terminators of `^`, `$` and `.` in a regular expression.
abbrev pub is_terminator : ℕ → Bool
is_terminator c = eqb c 10 || eqb c 13 || eqb c 0x2028 || eqb c 0x2029

-- The texts between the line terminators.
unfoldable pub line_texts : String → List String
unfolding push_first
line_texts [] = List.◌∷◌ [] List.[]
line_texts (c ∷ s) =
    let rest = line_texts s in
    if is_terminator (code c) then List.◌∷◌ [] rest else push_first c rest

-- `s.split("\n")`.
unfoldable pub split_newlines : String → List String
unfolding push_first
split_newlines [] = List.◌∷◌ [] List.[]
split_newlines (c ∷ s) =
    let rest = split_newlines s in
    if is_newline (code c) then List.◌∷◌ [] rest else push_first c rest

trimmed : List String → List String
unfolding trim
trimmed List.[] = List.[]
trimmed (List.◌∷◌ l ls) =
    let rest = trimmed ls in if is_empty (trim l) then rest else List.◌∷◌ (trim l) rest

-- `s.split("\n").map((l) => l.trim()).filter(Boolean)`.
unfoldable pub output_lines : String → List String
unfolding split_newlines trimmed
output_lines s = trimmed (split_newlines s)

-- `s.length`, in UTF-16 units.
unfoldable pub utf16_length : String → ℕ
utf16_length [] = 0
utf16_length (c ∷ s) = (if leb 0x10000 (code c) then 2 else 1) + utf16_length s
