-- ===== src/Design/Pointer.antt =====
-- The markers of a description that the design rules read: `Design:` and `Mode:` lines.
use Prim.Native.Char.{code}
use dev_loop.Common.{
  ℕ, String, Bool, true, false, not, ◌&&◌, ◌||◌, Option, none, some, List, [], ◌∷◌, eqb, is_some,
  if◌then◌else◌, ◌or_else◌, ◌==◌,
}
use dev_loop.Common.Text.{
  is_space, is_blank, is_letter, is_digit, skip, skip_end, trim, is_empty, after_prefix,
  strip_prefix, same_word, span, last_char, drop_span, line_texts, append,
}

-- `Design: <pointer>` at the start of a line.
pointer_of_line : String → Option String
unfolding skip skip_end after_prefix last_char
pointer_of_line line = elim (after_prefix "Design:" (skip is_blank line)) [
  | none ↦ none
  | some rest ↦
      let value = skip_end is_blank (skip is_blank rest) in
      if is_empty rest then none else some (if is_empty value then last_char rest else value)
]

first_of_lines : (String → Option String) → List String → Option String
first_of_lines f [] = none
first_of_lines f (l ∷ ls) = f l or_else first_of_lines f ls

-- The pointer of the first `Design:` line.
unfoldable pub design_pointer_of : String → Option String
unfolding first_of_lines pointer_of_line line_texts
design_pointer_of description = first_of_lines pointer_of_line (line_texts description)

abbrev is_emphasis : ℕ → Bool
is_emphasis c = eqb c b'*' || eqb c b'_'

abbrev not_backtick : ℕ → Bool
not_backtick c = not (eqb c b'`')

inside_backticks : String → Option String
unfolding span drop_span
inside_backticks String.[] = none
inside_backticks (String.◌∷◌ c s) =
    let body = span not_backtick s in
    if eqb (code c) b'`' && not (is_empty body) && not (is_empty (drop_span not_backtick s))
    then some body
    else none

unfoldable pub unwrap_code_span : String → String
unfolding inside_backticks trim skip
unwrap_code_span pointer = elim (inside_backticks (skip is_emphasis (trim pointer))) [
  | none ↦ pointer
  | some body ↦ trim body
]

abbrev not_space : ℕ → Bool
not_space c = not (is_space c)

-- `^parent\s+(\S+)`, without case.
unfoldable pub parent_pointer : String → Option String
unfolding after_prefix skip span
parent_pointer s = elim (after_prefix "parent" s) [
  | none ↦ none
  | some rest ↦
      let word = span not_space (skip is_space rest) in
      if is_empty word || is_empty (span is_space rest) then none else some word
]

abbrev is_slug_char : ℕ → Bool
is_slug_char c = is_letter c || is_digit c || eqb c b'.' || eqb c b'_' || eqb c b'-'

abbrev is_dot : ℕ → Bool
is_dot c = eqb c b'.'

-- Text without a final `.md`, in any case.
strip_md_suffix : String → String
unfolding same_word
strip_md_suffix String.[] = ""
strip_md_suffix (String.◌∷◌ c s) =
    let rest = strip_md_suffix s in
    if same_word ".md" (String.◌∷◌ c s) then "" else String.◌∷◌ c rest

nonempty : String → Option String
nonempty s = if is_empty s then none else some s

hub_slug : String → Option String
unfolding after_prefix span skip_end nonempty
hub_slug s = elim (after_prefix "hubDoc:design/" s) [
  | none ↦ none
  | some rest ↦ nonempty (skip_end is_dot (span is_slug_char rest))
]

-- A slug, and a full stop behind it perhaps, up to the end of the text.
closed_slug : String → Option String
unfolding span skip_end drop_span nonempty
closed_slug rest =
    let slug = skip_end is_dot rest in
    if is_empty (drop_span is_slug_char rest) && (rest == slug || rest == append slug ".")
    then nonempty slug
    else none

file_slug : String → Option String
unfolding after_prefix closed_slug
file_slug s = elim (after_prefix "docs/design/" s) [ none ↦ none | some rest ↦ closed_slug rest ]

-- The doc that a pointer names, in either spelling.
unfoldable pub doc_slug_of : String → Option String
unfolding unwrap_code_span hub_slug file_slug strip_md_suffix
doc_slug_of pointer = elim (hub_slug (unwrap_code_span pointer)) [
  | some slug ↦ some (strip_md_suffix slug)
  | none ↦ elim (file_slug (unwrap_code_span pointer)) [
    | some slug ↦ some (strip_md_suffix slug)
    | none ↦ none
  ]
]

pub data ModeMarker : Type 0 where
  design direct_code : ModeMarker

mode_of_line : String → Option ModeMarker
unfolding skip skip_end after_prefix same_word
mode_of_line line = elim (after_prefix "Mode:" (skip is_blank line)) [
  | none ↦ none
  | some rest ↦
      let word = skip_end is_blank (skip is_blank rest) in
      if same_word "design" word || same_word "design-and-delegate" word
      then some design
      else if same_word "direct-code" word
      then some direct_code
      else none
]

first_mode : List String → Option ModeMarker
first_mode [] = none
first_mode (l ∷ ls) = mode_of_line l or_else first_mode ls

unfoldable pub mode_marker_of : String → Option ModeMarker
unfolding first_mode mode_of_line line_texts
mode_marker_of description = first_mode (line_texts description)

abbrev is_design : Option ModeMarker → Bool
is_design (some design) = true
is_design _ = false

unfoldable pub is_design_mode_body : String → Bool
unfolding mode_marker_of
is_design_mode_body description = is_design (mode_marker_of description)

-- `Mode:` and the word behind it.
mode_word : String → Option String
unfolding skip after_prefix span nonempty
mode_word line = elim (after_prefix "Mode:" (skip is_blank line)) [
  | none ↦ none
  | some rest ↦ nonempty (span not_space (skip is_blank rest))
]

unfoldable pub declares_non_design_mode : String → Bool
unfolding is_design_mode_body first_of_lines mode_word line_texts after_prefix
declares_non_design_mode description = elim (first_of_lines mode_word (line_texts description)) [
  | none ↦ false
  | some word ↦ not (is_design_mode_body description) && not (is_some (after_prefix "design" word))
]

-- `DocPointer`.
pub data DocPointer : Type 0 where
  hub_doc : (kind slug : String) → DocPointer
  repo_file : (slug : String) → DocPointer
  parent_ticket : (id : String) → DocPointer

pub data DocPointerFailure : Type 0 where
  empty_pointer hubdoc_shape repofile_shape parent_shape unrecognized : DocPointerFailure

-- `DocPointerResult`, without its texts.
pub data DocPointerResult : Type 0 where
  read_pointer : DocPointer → DocPointerResult
  no_pointer : DocPointerFailure → DocPointerResult

slug_of_kind : (kind : String) → Option String → Option DocPointer
unfolding strip_md_suffix
slug_of_kind kind none = none
slug_of_kind kind (some slug) = some (hub_doc kind (strip_md_suffix slug))

-- `HUB_POINTER_ANY_KIND_RE` behind `hubDoc:`.
hub_any_kind : String → Option DocPointer
unfolding span drop_span strip_prefix skip_end slug_of_kind closed_slug
hub_any_kind rest =
    let kind = span is_slug_char rest in
    elim (strip_prefix "/" (drop_span is_slug_char rest)) [
      | none ↦ none
      | some tail ↦
          if is_empty kind || not (skip_end is_dot kind == kind)
          then none
          else slug_of_kind kind (closed_slug tail)
    ]

pointer_or : DocPointerFailure → Option DocPointer → DocPointerResult
pointer_or why none = no_pointer why
pointer_or why (some p) = read_pointer p

file_pointer : Option String → Option DocPointer
unfolding strip_md_suffix
file_pointer none = none
file_pointer (some slug) = some (repo_file (strip_md_suffix slug))

parent_of : Option String → Option DocPointer
parent_of none = none
parent_of (some id) = some (parent_ticket id)

-- `/^parent\b/i`.
is_parent_form : String → Bool
unfolding after_prefix span
is_parent_form p = elim (after_prefix "parent" p) [
  | none ↦ false
  | some rest ↦ is_empty (span (λ c. is_letter c || is_digit c || eqb c b'_') rest)
]

pointer_in : String → DocPointerResult
unfolding after_prefix pointer_or hub_any_kind file_pointer file_slug parent_of parent_pointer
    is_parent_form
pointer_in p = if is_empty p then no_pointer empty_pointer else elim (after_prefix "hubDoc:" p) [
  | some rest ↦ pointer_or hubdoc_shape (hub_any_kind rest)
  | none ↦
      if is_some (after_prefix "docs/" p)
      then pointer_or repofile_shape (file_pointer (file_slug p))
      else if is_parent_form p
      then pointer_or parent_shape (parent_of (parent_pointer p))
      else no_pointer unrecognized
]

-- `parseDocPointer`.
unfoldable pub parse_doc_pointer : String → DocPointerResult
unfolding pointer_in trim unwrap_code_span
parse_doc_pointer raw = pointer_in (trim (unwrap_code_span raw))
