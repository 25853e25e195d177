-- ===== src/Breaker/Classify.antt =====
-- The class of a failed fire: `classifyFireError` and what it asks, in hub/src/breaker.ts. An amount of
-- money is a whole number of some small unit.
use Prim.Native.Char.{code}
use dev_loop.Common.{
  ℕ, ◌+◌, String, Bool, true, false, not, ◌&&◌, ◌||◌, Option, none, some, List, [], ◌∷◌, ◌≡◌, refl,
  ◌⊎◌, ◌↔◌, ◌≢◌, arith, any, includes, ltb, leb, eqb, if◌then◌else◌, ◌or_else◌,
}
use dev_loop.Common.Text.{is_empty, trim, is_letter, is_digit}
use dev_loop.Breaker.State.{provider_scoped_classes}

-- `BudgetKillEvidence`.
pub record Evidence : Type 0 where
  pub ceiling_usd : Option ℕ
  pub spent_usd : Option ℕ
  pub total_tokens : Option ℕ

abbrev billed : Option ℕ → Bool
billed none = false
billed (some n) = ltb 0 n

abbrev is_zero : Option ℕ → Bool
is_zero none = false
is_zero (some n) = eqb n 0

unfoldable pub wedged : Option Evidence → Bool
wedged none = false
wedged (some e) = not (billed e.spent_usd) && is_zero e.total_tokens

reached : Option ℕ → Option ℕ → Bool
reached (some spent) (some ceiling) = leb ceiling spent
reached _ _ = false

unfoldable pub measured_breach : Option Evidence → Bool
unfolding reached
measured_breach none = false
measured_breach (some e) = reached e.spent_usd e.ceiling_usd

-- What `producedNoWork` reads of a fire.
pub record FireOutcome : Type 0 where
  pub exit_code : ℕ
  pub timed_out : Bool
  pub interrupted : Bool
  pub output_tail : String

unfoldable pub produced_no_work : FireOutcome → Bool
produced_no_work f =
    not f.interrupted && eqb f.exit_code 0 && not f.timed_out && is_empty (trim f.output_tail)

-- `EXIT_NO_WORK`.
abbrev pub exit_no_work : ℕ
exit_no_work = 7

-- `toLowerCase` on the letters whose lower case is in ASCII: `A` to `Z` and the Kelvin sign.
is_letter_of : ℕ → ℕ → Bool
is_letter_of l c =
    eqb l c || eqb l (c + 32) && leb b'A' c && leb c b'Z' || eqb l b'k' && eqb c 0x212a

lower_prefix : String → String → Bool
unfolding is_letter_of
lower_prefix String.[] s = true
lower_prefix (String.◌∷◌ p ps) String.[] = false
lower_prefix (String.◌∷◌ p ps) (String.◌∷◌ c s) =
    is_letter_of (code p) (code c) && lower_prefix ps s

-- `/p/.test(tail.toLowerCase())`, for a phrase in lower case.
says : String → String → Bool
unfolding lower_prefix
says p String.[] = is_empty p
says p (String.◌∷◌ c s) = lower_prefix p (String.◌∷◌ c s) || says p s

-- The class `\w` that `\b` looks at, on a text in lower case.
abbrev is_word : ℕ → Bool
is_word c = is_letter c || is_digit c || eqb c b'_' || eqb c 0x212a

starts_word : String → Bool
starts_word String.[] = false
starts_word (String.◌∷◌ c s) = is_word (code c)

after_digits : String → String → Bool
unfolding starts_word
after_digits String.[] s = not (starts_word s)
after_digits (String.◌∷◌ p ps) String.[] = false
after_digits (String.◌∷◌ p ps) (String.◌∷◌ c s) = eqb (code p) (code c) && after_digits ps s

-- `/\bp\b/` for a number; `inside` says whether the text stands behind a word character.
says_number : Bool → String → String → Bool
unfolding after_digits
says_number inside p String.[] = false
says_number inside p (String.◌∷◌ c s) =
    not inside && after_digits p (String.◌∷◌ c s) || says_number (is_word (code c)) p s

says_any : List String → String → Bool
says_any ps s = any (λ p. says p s) ps

-- `tailErrorClass`.
unfoldable pub tail_error_class : String → Option String
unfolding says says_any says_number
tail_error_class t =
    if says "session limit" t
    then some "session-limit"
    else if says_any
        ("spend limit" ∷ "usage limit" ∷ "monthly limit" ∷ "credit balance too low"
          ∷ "quota exceeded" ∷ [])
        t
    then some "spend-limit"
    else if says_any ("rate limit" ∷ "too many requests" ∷ "overloaded_error" ∷ []) t
        || says_number false "429" t
        || says_number false "529" t
    then some "rate-limit"
    else if says_any
          ("invalid api key" ∷ "authentication_error" ∷ "unauthorized" ∷ "not logged in"
            ∷ "please run /login" ∷ "oauth token" ∷ [])
          t
        || says_number false "401" t
    then some "auth"
    else if says_any
        ("enotfound" ∷ "econnrefused" ∷ "econnreset" ∷ "etimedout" ∷ "eai_again" ∷ "fetch failed"
          ∷ "network error" ∷ "socket hang up" ∷ [])
        t
    then some "network"
    else none

-- The arguments of `classifyFireError`.
pub record FireError : Type 0 where
  pub exit_code : ℕ
  pub timed_out : Bool
  pub tail : String
  pub stalled : Bool
  pub retry_loop : Bool
  pub budget_killed : Bool
  pub evidence : Option Evidence
  pub no_work : Bool

unfoldable pub classify_fire_error : FireError → Option String
classify_fire_error f =
    if f.budget_killed
    then (if measured_breach f.evidence
        then some "budget-per-fire"
        else tail_error_class f.tail
          or_else some (if wedged f.evidence then "stalled" else "budget-deadline"))
    else if f.retry_loop
    then some "retry-loop"
    else if f.stalled
    then some "stalled"
    else if f.timed_out
    then some "timeout"
    else if f.no_work
    then some "no-output"
    else if eqb f.exit_code 0
    then none
    else tail_error_class f.tail

tail_or_scoped :
    (o : Option String) (w c : String)
    → (o or_else some w) ≡ some c
    → includes w provider_scoped_classes ≡ false
    → includes c provider_scoped_classes ≡ true
    → o ≡ some c
tail_or_scoped none w c h n s = absurd (ground arith)
tail_or_scoped (some x) w c h n s = h

unscoped :
    (w c : String)
    → includes w provider_scoped_classes ≡ false
    → includes c provider_scoped_classes ≡ true
    → some w ≢ some c
unscoped w c n s e = absurd (ground arith)

-- A class that is counted against a provider is read from the fire's output: no watchdog, timeout,
-- budget or missing output gives one.
pub classify_fire_error-scoped :
    (f : FireError) (class : String)
    → classify_fire_error f ≡ some class
    → includes class provider_scoped_classes ≡ true
    → tail_error_class f.tail ≡ some class
unfolding classify_fire_error
classify_fire_error-scoped f class h s =
    let no : (w : String) → includes w provider_scoped_classes ≡ false → some w ≢ some class =
      λ w n. unscoped w class n s in
    let tail : (w : String)
        → includes w provider_scoped_classes ≡ false
        → (tail_error_class f.tail or_else some w) ≡ some class
        → tail_error_class f.tail ≡ some class =
      λ w n e. tail_or_scoped (tail_error_class f.tail) w class e n s in
    ground (
      arith,
      tail "stalled" refl,
      tail "budget-deadline" refl,
      no "budget-per-fire" refl,
      no "retry-loop" refl,
      no "stalled" refl,
      no "timeout" refl,
      no "no-output" refl,
    )

-- A fire has no class exactly when nothing killed it, it did some work, and it exits with 0 or says
-- nothing known.
pub classify_fire_error-none :
    (f : FireError)
    → (classify_fire_error f ≡ none) ↔ (
        (f.budget_killed ≡ false)
        × (f.retry_loop ≡ false)
        × (f.stalled ≡ false)
        × (f.timed_out ≡ false)
        × (f.no_work ≡ false)
        × ((eqb f.exit_code 0 ≡ true) ⊎ (tail_error_class f.tail ≡ none)))
unfolding classify_fire_error
classify_fire_error-none f = ground (arith)
