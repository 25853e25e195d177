-- ===== src/Breaker/Keys.antt =====
-- What a failure is counted under, in memory and on disk: hub/src/breaker.ts.
use Prim.Native.Char.{code}
use dev_loop.Common.{
  ℕ, ◌-◌, String, Bool, false, ◌&&◌, ◌||◌, Option, none, some, List, [], ◌∷◌, ◌==◌, leb, eqb,
  if◌then◌else◌, get_or, is_some,
}
use dev_loop.Common.Text.{append, is_empty, is_space, skip_end, trim, split_newlines, strip_prefix}
use dev_loop.Breaker.State.{nonempty}

-- The last 160 UTF-16 units at most, from the front; a pair that straddles the end is dropped.
take_units : ℕ → String → String
take_units n String.[] = String.[]
take_units n (String.◌∷◌ c s) =
    let w = if leb 0x10000 (code c) then 2 else 1 in
    let rest = take_units (n - w) s in if leb w n then String.◌∷◌ c rest else String.[]

last_text : List String → String
last_text [] = ""
last_text (x ∷ []) = x
last_text (x ∷ y ∷ xs) = last_text (y ∷ xs)

last_line : String → String
unfolding take_units last_text
last_line tail = take_units 160 (trim (last_text (split_newlines (skip_end is_space tail))))

-- What a failure is counted under.
unfoldable pub failure_key : Option String → Option String → String
unfolding last_line
failure_key (some class) tail = class
failure_key none tail =
    let line = last_line (get_or tail "") in if is_empty line then "(no-output)" else line

all_hex : ℕ → String → Bool
all_hex n String.[] = false
all_hex n (String.◌∷◌ c s) =
    let rest = all_hex (n - 1) s in
    if eqb n 0
    then eqb (code c) b')' && is_empty s
    else (leb b'0' (code c) && leb (code c) b'9' || leb b'a' (code c) && leb (code c) b'f') && rest

-- `/^\(unclassified tail #[0-9a-f]{8}\)$/`.
is_persisted : String → Bool
unfolding all_hex
is_persisted key = elim (strip_prefix "(unclassified tail #" key) [
  | none ↦ false
  | some rest ↦ all_hex 8 rest
]

-- `persistedKey`, over the first eight hexadecimal digits of a text's hash.
unfoldable pub persisted_key : (String → String) → String → Option String → String
unfolding is_persisted
persisted_key hash key class =
    if is_some (nonempty class) || key == "(no-output)" || is_persisted key
    then key
    else append "(unclassified tail #" (append (hash key) ")")
