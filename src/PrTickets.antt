-- ===== src/PrTickets.antt =====
-- The tickets that a pull request claims: hub/src/pr-tickets.ts, with the scanner of hub/src/ticket-id.ts.
pub mod Claims
pub mod Examples
use Prim.Native.Char.{code}
use dev_loop.Common.{
  ℕ, String, Bool, true, false, not, ◌&&◌, ◌||◌, Option, none, some, List, [], ◌∷◌, ◌++◌, includes,
  eqb, head?, if◌then◌else◌,
}
use dev_loop.Common.Text.{
  is_space, is_upper, is_letter, is_digit, is_empty, span, drop_span, strip_prefix, append,
}

-- The class `\w`.
is_word : ℕ → Bool
is_word c = is_letter c || is_digit c || eqb c b'_'

starts_word : String → Bool
unfolding is_word
starts_word String.[] = false
starts_word (String.◌∷◌ c s) = is_word (code c)

is_id_char : ℕ → Bool
is_id_char c = is_upper c || is_digit c

-- `-\d+\b` at the start of the text.
ends_id : String → Bool
unfolding starts_word span drop_span
ends_id String.[] = false
ends_id (String.◌∷◌ c s) =
    eqb (code c) b'-'
    && not (is_empty (span is_digit s))
    && not (starts_word (drop_span is_digit s))

-- The hyphen and the digits.
id_number : String → String
unfolding span
id_number String.[] = String.[]
id_number (String.◌∷◌ c s) = String.◌∷◌ c (span is_digit s)

id_behind : String → String → Option String
unfolding ends_id id_number
id_behind prefix s = if ends_id s then some (append prefix (id_number s)) else none

-- `[A-Z][A-Z0-9]*-\d+\b` at the start of the text.
id_at : String → Option String
unfolding id_behind is_id_char span drop_span
id_at String.[] = none
id_at (String.◌∷◌ c s) =
    if is_upper (code c)
    then id_behind (String.◌∷◌ c (span is_id_char s)) (drop_span is_id_char s)
    else none

abbrev put_front : Option String → List String → List String
put_front none ids = ids
put_front (some id) ids = id ∷ ids

-- The matches of `ticketIdScanRe("g")` from a place on, given whether a word character stands before it.
-- No id starts inside another, so going on at the next character finds what `matchAll` finds.
unfoldable pub scan_from : Bool → String → List String
unfolding is_word id_at
scan_from in_word String.[] = []
scan_from in_word (String.◌∷◌ c s) =
    let rest = scan_from (is_word (code c)) s in
    if in_word then rest else put_front (id_at (String.◌∷◌ c s)) rest

abbrev pub scan_ids : String → List String
scan_ids s = scan_from false s

-- `([^/\s]+)` behind one of the two prefixes, at the start of the text.
group_at : String → Option String → Option String
group_at s none = none
group_at s (some rest) =
    let group = span (λ c. not (eqb c b'/' || is_space c)) rest in
    if is_empty group then none else some group

unfoldable pub first_some : Option String → Option String → Option String
first_some none o = o
first_some (some s) o = some s

-- `(?:dev-loop\/|fix\/)([^/\s]+)`: the group of the first place that matches.
unfoldable pub branch_group : String → Option String
unfolding group_at first_some strip_prefix
branch_group String.[] = none
branch_group (String.◌∷◌ c s) =
    let here = String.◌∷◌ c s in
    first_some
      (first_some (group_at here (strip_prefix "dev-loop/" here))
        (group_at here (strip_prefix "fix/" here)))
      (branch_group s)

unfoldable pub id_of_group : Option String → Option String
id_of_group none = none
id_of_group (some group) = head? (scan_ids group)

-- `ticketFromBranch`.
unfoldable pub ticket_from_branch : String → Option String
unfolding branch_group id_of_group
ticket_from_branch branch = id_of_group (branch_group branch)

-- `PrTicketSources`; an absent text is the empty one.
pub record PrTicketSources : Type 0 where
  pub branch : String
  pub commit_messages : List String
  pub title : String
  pub body : String

unfoldable pub add_id : List String → String → List String
add_id out id = if is_empty id || includes id out then out else out ++ id ∷ []

unfoldable pub add_ids : List String → List String → List String
unfolding add_id
add_ids out [] = out
add_ids out (id ∷ ids) = add_ids (add_id out id) ids

unfoldable pub scan_texts : List String → List String
unfolding scan_from
scan_texts [] = []
scan_texts (t ∷ ts) = scan_ids t ++ scan_texts ts

abbrev pub branch_ids : Option String → List String
branch_ids none = []
branch_ids (some id) = id ∷ []

-- `prTicketIds`.
unfoldable pub pr_ticket_ids : PrTicketSources → List String
unfolding add_ids scan_texts ticket_from_branch
pr_ticket_ids src =
    add_ids (add_ids [] (branch_ids (ticket_from_branch src.branch)))
      (scan_texts (src.commit_messages ++ src.title ∷ src.body ∷ []))
