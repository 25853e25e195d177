-- ===== src/Common/Sets.antt =====
-- `xs.includes(s)` and `[...new Set(xs)]` over texts.
use Prim.Native.Nat.{Ordering}
use Prim.Native.String.{String, compare}
use mathlib.Core.Bool.{Bool, true, false, ◌&&◌, ◌||◌, not}
use mathlib.Core.List.{List, [], ◌∷◌}
use text.Mathlib.Text.{◌==◌}
use text.Mathlib.TextEquality.{eq_iff}
use native.Mathlib.Omega.{arith}
use mathlib.Core.Path.{◌≡◌, ◌∙◌, ap, refl}
use mathlib.Core.Logic.{inl, inr}
use dev_loop.Common.Booleans.{if◌then◌else◌, Bool-cases}
use dev_loop.Common.Lists.{filter}

abbrev pub includes : String → List String → Bool
includes s [] = false
includes s (x ∷ xs) = x == s || includes s xs

-- The elements in the order of their first occurrence.
unfoldable pub dedup : List String → List String
dedup [] = []
dedup (x ∷ xs) = x ∷ filter (λ y. not (x == y)) (dedup xs)

-- `xs.sort()`, by insertion. (Texts are compared by code points.)
abbrev pub le_text : String → String → Bool
le_text s t = elim (compare s t) [ Ordering.gt ↦ false | _ ↦ true ]

insert_text : String → List String → List String
insert_text x [] = x ∷ []
insert_text x (y ∷ ys) = let rest = insert_text x ys in if le_text x y then x ∷ y ∷ ys else y ∷ rest

unfoldable pub sort_texts : List String → List String
unfolding insert_text
sort_texts [] = []
sort_texts (x ∷ xs) = insert_text x (sort_texts xs)

includes-insert_text :
    (z x : String) (xs : List String) → includes z (insert_text x xs) ≡ x == z || includes z xs
unfolding insert_text
includes-insert_text z x [] = refl
includes-insert_text z x (y ∷ ys) = elim (Bool-cases (le_text x y)) [
  | inl e ↦ rw e refl
  | inr e ↦ rw e (ground (arith, includes-insert_text z x ys))
]

pub includes-sort_texts :
    (z : String) (xs : List String) → includes z (sort_texts xs) ≡ includes z xs
unfolding sort_texts
includes-sort_texts z [] = refl
includes-sort_texts z (x ∷ xs) =
    includes-insert_text z x (sort_texts xs) ∙ ap (λ b. x == z || b) (includes-sort_texts z xs)

-- Two lists with the same texts in the same order.
unfoldable pub same_texts : List String → List String → Bool
same_texts [] [] = true
same_texts [] (y ∷ ys) = false
same_texts (x ∷ xs) [] = false
same_texts (x ∷ xs) (y ∷ ys) = x == y && same_texts xs ys

pub same_texts→eq : (xs ys : List String) → same_texts xs ys ≡ true → xs ≡ ys
unfolding same_texts
same_texts→eq [] [] h = refl
same_texts→eq [] (y ∷ ys) h = absurd (cc)
same_texts→eq (x ∷ xs) [] h = absurd (cc)
same_texts→eq (x ∷ xs) (y ∷ ys) h = ground (arith, eq_iff x y, same_texts→eq xs ys)
