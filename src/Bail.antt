-- ===== src/Bail.antt =====
-- The bail-shape marker of a comment: hub/src/bail-shape.ts.
pub mod Laws
use Prim.Native.Char.{code}
use dev_loop.Common.{
  String, Bool, false, Option, none, some, List, [], ◌∷◌, ◌||◌, map, eqb, if◌then◌else◌, ◌or_else◌,
  includes,
}
use dev_loop.Common.Text.{is_space, is_letter, skip, span, after_prefix, same_word, lines}

pub data BailShape : Type 0 where
  info_needed decision_needed scope_design external_prereq fix_exhausted : BailShape

-- The label of a shape is its token.
unfoldable pub token : BailShape → String
token info_needed = "info-needed"
token decision_needed = "decision-needed"
token scope_design = "scope-design"
token external_prereq = "external-prereq"
token fix_exhausted = "fix-exhausted"

-- `BAIL_SHAPES`, the set that every reader tests against.
unfoldable pub bail_shapes : List BailShape
bail_shapes = info_needed ∷ decision_needed ∷ scope_design ∷ external_prereq ∷ fix_exhausted ∷ []

-- `BAIL_SHAPE_SET.has(label)`.
unfoldable pub is_bail_label : String → Bool
unfolding token bail_shapes
is_bail_label label = includes label (map token bail_shapes)

starts_letter : String → Bool
starts_letter String.[] = false
starts_letter (String.◌∷◌ c s) = is_letter (code c)

-- `[a-z][a-z-]*` without case, at the start of the text.
shape_word : String → String
unfolding span starts_letter
shape_word s = let w = span (λ c. is_letter c || eqb c b'-') s in if starts_letter s then w else ""

-- The known shape that a token spells once it is in lower case.
shape_among : List BailShape → String → Option BailShape
unfolding token same_word
shape_among [] word = none
shape_among (b ∷ bs) word =
    let rest = shape_among bs word in if same_word (token b) word then some b else rest

shape_of_word : String → Option BailShape
unfolding shape_among bail_shapes
shape_of_word word = shape_among bail_shapes word

-- A line matches `BAIL_RE` with the token `m[1]`, and the token is known.
shape_of_line : String → Option BailShape
unfolding shape_word shape_of_word skip after_prefix
shape_of_line line = elim (after_prefix "bail-shape:" (skip is_space line)) [
  | none ↦ none
  | some rest ↦ shape_of_word (shape_word (skip is_space rest))
]

first_shape : List String → Option BailShape
first_shape [] = none
first_shape (l ∷ ls) = shape_of_line l or_else first_shape ls

unfoldable pub parse_bail_shape : String → Option BailShape
unfolding first_shape shape_of_line lines
parse_bail_shape body = first_shape (lines body)

-- The newest parseable shape: a later one replaces it, a comment without one leaves it.
latest_from : Option BailShape → List String → Option BailShape
latest_from latest [] = latest
latest_from latest (body ∷ bodies) = latest_from (parse_bail_shape body or_else latest) bodies

unfoldable pub latest_bail_shape : List String → Option BailShape
unfolding latest_from
latest_bail_shape bodies = latest_from none bodies
