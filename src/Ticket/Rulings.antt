-- ===== src/Ticket/Rulings.antt =====
-- The grammar of an operator's ruling in a comment: `parseRuling` of hub/src/ticketwrite.ts.
pub mod Laws
use Prim.Native.Char.{code}
use dev_loop.Common.{
  ℕ, String, Bool, true, false, not, ◌||◌, Option, none, some, ◌≡◌, refl, eqb, if◌then◌else◌,
  ◌or_else◌,
}
use dev_loop.Common.Text.{
  is_space, is_letter, is_digit, skip, trim, is_empty, after_prefix, strip_prefix, append,
}
use dev_loop.Store.{Verdict, approve, reject, defer}
use dev_loop.Ticket.Env.{Rejection, malformed_ruling, no_ruling_reason}

pub record ParsedRuling : Type 0 where
  pub verdict : Verdict
  pub reason : String

-- No ruling, an ill-formed one, or the ruling.
pub data Parsed : Type 0 where
  no_ruling : Parsed
  malformed : Rejection → Parsed
  parsed : ParsedRuling → Parsed

starts_with_colon : String → Bool
starts_with_colon String.[] = false
starts_with_colon (String.◌∷◌ c s) = eqb (code c) b':'

-- `/^\s*ruling\s*:/i`.
unfoldable pub is_ruling_shaped : String → Bool
unfolding skip after_prefix starts_with_colon
is_ruling_shaped body = elim (after_prefix "ruling" (skip is_space body)) [
  | none ↦ false
  | some rest ↦ starts_with_colon (skip is_space rest)
]

-- A word ends here: `\b` behind a letter.
ends_word : String → Bool
ends_word String.[] = true
ends_word (String.◌∷◌ c s) = not (is_letter (code c) || is_digit (code c) || eqb (code c) b'_')

word_then : Verdict → String → String → Option (Verdict × String)
unfolding strip_prefix ends_word
word_then v word s = elim (strip_prefix word s) [
  | none ↦ none
  | some rest ↦ if ends_word rest then some (v, rest) else none
]

-- `(approve|reject|defer)\b`.
verdict_and_rest : String → Option (Verdict × String)
unfolding word_then
verdict_and_rest s =
    word_then approve "approve" s
    or_else word_then reject "reject" s
    or_else word_then defer "defer" s

-- The class `[—–-]`.
abbrev is_dash : ℕ → Bool
is_dash c = eqb c 0x2014 || eqb c 0x2013 || eqb c b'-'

starts_with_space : String → Bool
starts_with_space String.[] = false
starts_with_space (String.◌∷◌ c s) = is_space (code c)

-- `RULING_RE`: the verdict and the text behind the dash.
unfoldable pub ruling_parts : String → Option (Verdict × String)
unfolding skip strip_prefix verdict_and_rest starts_with_space
ruling_parts body = elim (strip_prefix "Ruling:" (skip is_space body)) [
  | none ↦ none
  | some rest ↦
      if starts_with_space rest
      then elim (verdict_and_rest (skip is_space rest)) [
        | none ↦ none
        | some (v, tail) ↦ some (v, skip is_space (skip is_dash (skip is_space tail)))
      ]
      else none
]

unfoldable pub with_reason : Verdict → String → Parsed
with_reason v reason =
    if is_empty reason
    then malformed no_ruling_reason
    else parsed (record { verdict = v; reason = reason })

unfoldable pub of_parts : Option (Verdict × String) → Parsed
unfolding with_reason trim
of_parts none = malformed malformed_ruling
of_parts (some (v, rest)) = with_reason v (trim rest)

unfoldable pub parse_ruling : String → Parsed
unfolding is_ruling_shaped ruling_parts of_parts
parse_ruling body = if is_ruling_shaped body then of_parts (ruling_parts body) else no_ruling

unfoldable pub verdict_word : Verdict → String
verdict_word approve = "approve"
verdict_word reject = "reject"
verdict_word defer = "defer"

-- `rulingBody`: the comment that records a ruling.
unfoldable pub ruling_body : Verdict → String → String
unfolding verdict_word trim
ruling_body v reason = append "Ruling: " (append (verdict_word v) (append " — " (trim reason)))
