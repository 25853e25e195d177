-- ===== src/Common/Trims.antt =====
-- Laws of `trim`.
use Prim.Native.Char.{code}
use Prim.Native.String.{String, [], ◌∷◌}
use mathlib.Core.Path.{◌≡◌, refl, ap, ◌∙◌}
use mathlib.Core.Logic.{inl, inr}
use mathlib.Core.Bool.{Bool, false, ◌&&◌}
use Prim.Native.Nat.{ℕ}
use dev_loop.Common.Booleans.{Bool-cases}
use dev_loop.Common.Text.{is_space, is_empty, skip, skip_end, trim}

-- The text starts with a character that does not pass, or it is empty.
abbrev Stops : (ℕ → Bool) → String → Type 0
Stops p [] = Unit
Stops p (c ∷ s) = p (code c) ≡ false

skip-Stops : (p : ℕ → Bool) (s : String) → Stops p (skip p s)
unfolding skip
skip-Stops p [] = tt
skip-Stops p (c ∷ s) = elim (Bool-cases (p (code c))) [
  | inl yes_it ↦ rw yes_it (skip-Stops p s)
  | inr no_it ↦ rw no_it no_it
]

skip_end-Stops : (p : ℕ → Bool) (s : String) → Stops p s → Stops p (skip_end p s)
unfolding skip_end
skip_end-Stops p [] h = tt
skip_end-Stops p (c ∷ s) h = rw h h

pub skip_stopped : (p : ℕ → Bool) (s : String) → Stops p s → skip p s ≡ s
unfolding skip
skip_stopped p [] h = refl
skip_stopped p (c ∷ s) h = rw h refl

skip_end-skip_end : (p : ℕ → Bool) (s : String) → skip_end p (skip_end p s) ≡ skip_end p s
unfolding skip_end
skip_end-skip_end p [] = refl
skip_end-skip_end p (c ∷ s) = elim (Bool-cases (p (code c) && is_empty (skip_end p s))) [
  | inl yes_it ↦ rw yes_it refl
  | inr no_it ↦ rw (no_it, skip_end-skip_end p s, no_it) refl
]

-- No blank stands at the start of a trimmed text.
pub skip-trim : (s : String) → skip is_space (trim s) ≡ trim s
unfolding trim
skip-trim s =
    skip_stopped is_space (trim s)
      (skip_end-Stops is_space (skip is_space s) (skip-Stops is_space s))

pub trim-trim : (s : String) → trim (trim s) ≡ trim s
trim-trim s =
    unfold trim in
    ap (skip_end is_space) (skip-trim s) ∙ skip_end-skip_end is_space (skip is_space s)
