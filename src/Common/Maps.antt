-- ===== src/Common/Maps.antt =====
-- JavaScript's `Map` with texts as keys: the entries in the order of their insertion.
use text.Mathlib.TextPositions.{eq_refl}
use mathlib.Core.Path.{◌≡◌, refl, ap, ◌∙◌}
use mathlib.Core.Logic.{inl, inr}
use mathlib.Core.Bool.{Bool, true, false}
use mathlib.Core.Option.{Option, none, some}
use mathlib.Core.List.{List, [], ◌∷◌}
use Prim.Native.String.{String}
use text.Mathlib.Text.{◌==◌}
use text.Mathlib.TextEquality.{eq_iff}
use native.Mathlib.Omega.{arith}
use dev_loop.Common.Booleans.{if◌then◌else◌, Bool-cases}

module _ {ℓ} {A : Type ℓ} where
  -- `m.get(k)`.
  abbrev pub lookup : String → List (String × A) → Option A
  lookup k [] = none
  lookup k ((k1, a) ∷ m) = if k1 == k then some a else lookup k m

  -- `m.set(k, a)`: in place where the key is there.
  unfoldable pub set : String → A → List (String × A) → List (String × A)
  set k a [] = (k, a) ∷ []
  set k a ((k1, b) ∷ m) = let rest = set k a m in if k1 == k then (k1, a) ∷ m else (k1, b) ∷ rest

  -- A loop over the map that sets the value of every key that passes.
  unfoldable pub set_where : (String → Bool) → (A → A) → List (String × A) → List (String × A)
  set_where p f [] = []
  set_where p f ((k, a) ∷ m) = (k, if p k then f a else a) ∷ set_where p f m

  -- Does an entry pass.
  abbrev pub any_entry : (String → A → Bool) → List (String × A) → Bool
  any_entry p [] = false
  any_entry p ((k, a) ∷ m) = if p k a then true else any_entry p m

  pub lookup-set : (k : String) (a : A) (m : List (String × A)) → lookup k (set k a m) ≡ some a
  unfolding set
  lookup-set k a [] = ground (arith, eq_refl k)
  lookup-set k a ((k1, b) ∷ m) = elim (Bool-cases (k1 == k)) [
    | inl same ↦ rw (same, same) refl
    | inr other ↦ rw (other, other) (lookup-set k a m)
  ]

  pub lookup-set-other :
      (j k : String) (a : A) (m : List (String × A))
      → (k == j) ≡ false
      → lookup j (set k a m) ≡ lookup j m
  unfolding set
  lookup-set-other j k a [] h = rw h refl
  lookup-set-other j k a ((k1, b) ∷ m) h = elim (Bool-cases (k1 == k)) [
    | inl same ↦
        let e : (k1 == j) ≡ false = ap (λ x. x == j) ((eq_iff k1 k).0 same) ∙ h in rw (same, e) refl
    | inr other ↦ rw (other, lookup-set-other j k a m h) refl
  ]
