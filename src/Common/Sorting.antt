-- ===== src/Common/Sorting.antt =====
-- `xs.sort(compare)`, which keeps the order of equals, by insertion.
use Prim.Native.Nat.{suc}
use mathlib.Core.Path.{◌≡◌, refl}
use mathlib.Core.Logic.{inl, inr}
use mathlib.Core.Bool.{Bool, true, false}
use mathlib.Core.List.{List, [], ◌∷◌}
use native.Mathlib.Omega.{arith}
use dev_loop.Common.Booleans.{if◌then◌else◌, Bool-cases}
use dev_loop.Common.Lists.{length, All}

-- `le a b` is `compare(a, b) <= 0`.
module _ {ℓ} {A : Type ℓ} (le : A → A → Bool) where
  unfoldable pub insert_by : A → List A → List A
  insert_by x [] = x ∷ []
  insert_by x (y ∷ ys) = let rest = insert_by x ys in if le x y then x ∷ y ∷ ys else y ∷ rest

  unfoldable pub sort_by : List A → List A
  unfolding insert_by
  sort_by [] = []
  sort_by (x ∷ xs) = insert_by x (sort_by xs)

  -- No element precedes a smaller one.
  abbrev pub IsSorted : List A → Type ℓ
  IsSorted [] = Unit
  IsSorted (x ∷ xs) = All (λ y. le x y ≡ true) xs × IsSorted xs

  length-insert_by : (x : A) (xs : List A) → length (insert_by x xs) ≡ suc (length xs)
  unfolding insert_by
  length-insert_by x [] = refl
  length-insert_by x (y ∷ ys) = ground (arith, length-insert_by x ys)

  pub length-sort_by : (xs : List A) → length (sort_by xs) ≡ length xs
  unfolding sort_by
  length-sort_by [] = refl
  length-sort_by (x ∷ xs) = omega (arith, length-insert_by x (sort_by xs), length-sort_by xs)

  module _ {κ} (P : A → Type κ) where
    All-insert_by : (x : A) (xs : List A) → P x → All P xs → All P (insert_by x xs)
    unfolding insert_by
    All-insert_by x [] p h = (p, tt)
    All-insert_by x (y ∷ ys) p h = elim (Bool-cases (le x y)) [
      | inl e ↦ rw e (p, h)
      | inr e ↦ rw e (h.0, All-insert_by x ys p h.1)
    ]

    pub All-sort_by : (xs : List A) → All P xs → All P (sort_by xs)
    unfolding sort_by
    All-sort_by [] h = tt
    All-sort_by (x ∷ xs) h = All-insert_by x (sort_by xs) h.0 (All-sort_by xs h.1)

  All-mono :
      (x y : A)
      → ((a b c : A) → le a b ≡ true → le b c ≡ true → le a c ≡ true)
      → le x y ≡ true
      → (ys : List A) → All (λ z. le y z ≡ true) ys
      → All (λ z. le x z ≡ true) ys
  All-mono x y trans e [] h = tt
  All-mono x y trans e (z ∷ zs) h = (trans x y z e h.0, All-mono x y trans e zs h.1)

  insert_by-IsSorted :
      ((a b c : A) → le a b ≡ true → le b c ≡ true → le a c ≡ true)
      → ((a b : A) → le a b ≡ false → le b a ≡ true)
      → (x : A) (xs : List A) → IsSorted xs
      → IsSorted (insert_by x xs)
  unfolding insert_by
  insert_by-IsSorted trans total x [] h = (tt, tt)
  insert_by-IsSorted trans total x (y ∷ ys) h = elim (Bool-cases (le x y)) [
    | inl e ↦ rw e ((e, All-mono x y trans e ys h.0), h)
    | inr e ↦ rw e (
      All-insert_by (λ z. le y z ≡ true) x ys (total x y e) h.0,
      insert_by-IsSorted trans total x ys h.1,
    )
  ]

  -- A sort by a total order sorts.
  pub sort_by-IsSorted :
      ((a b c : A) → le a b ≡ true → le b c ≡ true → le a c ≡ true)
      → ((a b : A) → le a b ≡ false → le b a ≡ true)
      → (xs : List A) → IsSorted (sort_by xs)
  unfolding sort_by
  sort_by-IsSorted trans total [] = tt
  sort_by-IsSorted trans total (x ∷ xs) =
      insert_by-IsSorted trans total x (sort_by xs) (sort_by-IsSorted trans total xs)
