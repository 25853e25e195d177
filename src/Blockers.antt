-- ===== src/Blockers.antt =====
-- The markers `Blocked-by:` and `Unblocked-by:` of a ticket's comments: hub/src/blocked-by.ts and the
-- shape of a ticket id in hub/src/ticket-id.ts.
pub mod Live
pub mod Examples
use Prim.Native.Char.{Char, code}
use Prim.Native.String.{char_at}
use dev_loop.Common.{
  ℕ, ◌-◌, String, Bool, true, false, not, ◌&&◌, ◌||◌, Option, none, some, List, [], ◌∷◌, ◌++◌, ◌==◌,
  filter, includes, eqb, leb, if◌then◌else◌, ◌or_else◌,
}
use dev_loop.Common.Text.{
  is_space, is_letter, is_digit, is_empty, is_terminator, skip, span, after_prefix, lines,
}

all_digits : String → Bool
all_digits String.[] = true
all_digits (String.◌∷◌ c s) = is_digit (code c) && all_digits s

-- `[A-Z0-9]*-\d+$` without case.
id_rest : String → Bool
unfolding all_digits
id_rest String.[] = false
id_rest (String.◌∷◌ c s) =
    if eqb (code c) b'-'
    then not (is_empty s) && all_digits s
    else (is_letter (code c) || is_digit (code c)) && id_rest s

-- `^[A-Z][A-Z0-9]*-\d+$` without case.
unfoldable pub is_ticket_id : String → Bool
unfolding id_rest
is_ticket_id String.[] = false
is_ticket_id (String.◌∷◌ c s) = is_letter (code c) && id_rest s

upper_char : Char → Char
upper_char c =
    if leb b'a' (code c) && leb (code c) b'z'
    then char_at "ABCDEFGHIJKLMNOPQRSTUVWXYZ" (code c - b'a')
    else c

-- `toUpperCase` of a text of letters, digits and hyphens in ASCII.
upper : String → String
unfolding upper_char
upper String.[] = String.[]
upper (String.◌∷◌ c s) = String.◌∷◌ (upper_char c) (upper s)

-- `canonicalTicketId`.
unfoldable pub canonical_ticket_id : String → Option String
unfolding is_ticket_id upper
canonical_ticket_id token = if is_ticket_id token then some (upper token) else none

push_char : Char → List String → List String
push_char c [] = String.◌∷◌ c String.[] ∷ []
push_char c (t ∷ ts) = String.◌∷◌ c t ∷ ts

-- The texts between `[\s,]`; where the source's `split` takes a run of them at once, this one has empty
-- texts between, which are no ids.
tokens : String → List String
unfolding push_char
tokens String.[] = String.[] ∷ []
tokens (String.◌∷◌ c s) =
    let rest = tokens s in
    if is_space (code c) || eqb (code c) b',' then String.[] ∷ rest else push_char c rest

ids_among : List String → List String
unfolding canonical_ticket_id
ids_among [] = []
ids_among (t ∷ ts) =
    let rest = ids_among ts in elim (canonical_ticket_id t) [ none ↦ rest | some id ↦ id ∷ rest ]

-- `extractIds`.
unfoldable pub extract_ids : String → List String
unfolding tokens ids_among
extract_ids remainder = ids_among (tokens remainder)

pub data Kind : Type 0 where
  block unblock : Kind

pub record Marker : Type 0 where
  pub kind : Kind
  pub ids : List String

-- `(.*)` behind `\s*`: up to the next line terminator.
remainder_of : String → String
unfolding skip span
remainder_of s = span (λ c. not (is_terminator c)) (skip is_space s)

of_kind : Kind → String → Option (Kind × String)
unfolding remainder_of
of_kind kind s = some (kind, remainder_of s)

-- `MARKER_RE`: the kind of the marker and what stands behind it.
marker_match : String → Option (Kind × String)
unfolding of_kind skip after_prefix
marker_match line =
    let s = skip is_space line in
    elim (after_prefix "blocked-by:" s) [
      | some rest ↦ of_kind block rest
      | none ↦ elim (after_prefix "unblocked-by:" s) [
        | some rest ↦ of_kind unblock rest
        | none ↦ none
      ]
    ]

marker_of : Option (Kind × String) → List Marker
unfolding extract_ids
marker_of none = []
marker_of (some (kind, rest)) = elim (extract_ids rest) [
  | [] ↦ []
  | id ∷ ids ↦ record { kind = kind; ids = id ∷ ids } ∷ []
]

markers_of_lines : List String → List Marker
unfolding marker_match marker_of
markers_of_lines [] = []
markers_of_lines (l ∷ ls) = marker_of (marker_match l) ++ markers_of_lines ls

-- `parseMarkerLines`, over the comments in the order of time.
unfoldable pub parse_marker_lines : List String → List Marker
unfolding markers_of_lines lines
parse_marker_lines [] = []
parse_marker_lines (body ∷ bodies) = markers_of_lines (lines body) ++ parse_marker_lines bodies

-- `live.add(id)` and `live.delete(id)` on a set in the order of insertion.
unfoldable pub apply_id : Kind → String → List String → List String
apply_id block id live = if includes id live then live else live ++ id ∷ []
apply_id unblock id live = filter (λ x. not (x == id)) live

unfoldable pub apply_ids : Kind → List String → List String → List String
unfolding apply_id
apply_ids kind [] live = live
apply_ids kind (id ∷ ids) live = apply_ids kind ids (apply_id kind id live)

-- The fold of the markers.
unfoldable pub fold_markers : List Marker → List String → List String
unfolding apply_ids
fold_markers [] live = live
fold_markers (m ∷ ms) live = fold_markers ms (apply_ids m.kind m.ids live)

-- A comment as the reader of blockers gets it.
pub record ReadComment : Type 0 where
  pub body : String
  pub partial : Bool

unfoldable pub readable : List ReadComment → List String
readable [] = []
readable (c ∷ cs) = let rest = readable cs in if c.partial then rest else c.body ∷ rest

any_partial : List ReadComment → Bool
any_partial [] = false
any_partial (c ∷ cs) = c.partial || any_partial cs

-- `BlockerParseResult`.
pub record Blockers : Type 0 where
  pub live : List String
  pub had_read_failure : Bool

unfoldable pub live_blocker_ids : List ReadComment → Blockers
unfolding readable any_partial parse_marker_lines fold_markers
live_blocker_ids comments = record {
  live = fold_markers (parse_marker_lines (readable comments)) [];
  had_read_failure = any_partial comments;
}
