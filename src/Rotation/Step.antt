-- ===== src/Rotation/Step.antt =====
-- What one step of the rotation does to the cursors: hub/src/rotation.ts.
use dev_loop.Common.{
  ℕ, ◌+◌, String, Bool, true, false, ◌||◌, List, [], ◌∷◌, ◌≡◌, refl, ◌==◌, ◌∙◌, sym, arith, inl,
  inr, ◌⊎◌, eq_iff, if◌then◌else◌, Bool-cases, ap, All,
}
use mathlib.Core.Path.{subst}
use dev_loop.Common.Int.{ℤ, pos, ◌+ℤ◌, ◌-ℤ◌, ◌≤ℤ◌, ◌<ℤ◌, ltb_ℤ, int_laws, parts}
use dev_loop.Rotation.{Candidate, CursorMap, cursor, total_weight, change, raise, best}

-- The sum of the cursors.
unfoldable pub balance : CursorMap → ℤ
balance [] = pos 0
balance ((k, v) ∷ cur) = v +ℤ balance cur

abbrev pub has_key : String → CursorMap → Bool
has_key k [] = false
has_key k ((j, v) ∷ cur) = j == k || has_key k cur

-- A change leaves the keys as they are.
pub has_key-change :
    (j k : String) (f : ℤ → ℤ) (cur : CursorMap) → has_key j (change k f cur) ≡ has_key j cur
unfolding change
has_key-change j k f [] = refl
has_key-change j k f ((i, v) ∷ cur) = ground (arith, has_key-change j k f cur)

pub balance-raised :
    (k : String) (w : ℕ) (cur : CursorMap)
    → has_key k cur ≡ true
    → balance (change k (λ v. v +ℤ pos w) cur) ≡ balance cur +ℤ pos w
unfolding balance change
balance-raised k w [] h = absurd (cc)
balance-raised k w ((j, v) ∷ cur) h = elim (Bool-cases (j == k)) [
  | inl same ↦ rw same (omega int_laws)
  | inr other ↦ rw other (omega (int_laws, parts (balance-raised k w cur (rw other at h))))
]

pub balance-lowered :
    (k : String) (w : ℕ) (cur : CursorMap)
    → has_key k cur ≡ true
    → balance (change k (λ v. v -ℤ pos w) cur) ≡ balance cur -ℤ pos w
unfolding balance change
balance-lowered k w [] h = absurd (cc)
balance-lowered k w ((j, v) ∷ cur) h = elim (Bool-cases (j == k)) [
  | inl same ↦ rw same (omega int_laws)
  | inr other ↦ rw other (omega (int_laws, parts (balance-lowered k w cur (rw other at h))))
]

-- Every candidate has a cursor.
abbrev pub Covered : CursorMap → List Candidate → Type 0
Covered cur cs = All (λ c. has_key c.key cur ≡ true) cs

Covered-change :
    (k : String) (f : ℤ → ℤ) (cur : CursorMap) (cs : List Candidate)
    → Covered cur cs
    → Covered (change k f cur) cs
Covered-change k f cur [] h = tt
Covered-change k f cur (c ∷ cs) h =
    (rw (has_key-change c.key k f cur) h.0, Covered-change k f cur cs h.1)

pub balance-raise :
    (cs : List Candidate) (cur : CursorMap)
    → Covered cur cs
    → balance (raise cs cur) ≡ balance cur +ℤ pos (total_weight cs)
unfolding raise total_weight
balance-raise [] cur h = omega int_laws
balance-raise (c ∷ cs) cur h = omega (
  int_laws,
  parts (
      balance-raise cs (change c.key (λ v. v +ℤ pos c.weight) cur)
        (Covered-change c.key (λ v. v +ℤ pos c.weight) cur cs h.1)),
  parts (balance-raised c.key c.weight cur h.0),
)

pub has_key-raise :
    (k : String) (cs : List Candidate) (cur : CursorMap) → has_key k (raise cs cur) ≡ has_key k cur
unfolding raise
has_key-raise k [] cur = refl
has_key-raise k (c ∷ cs) cur =
    has_key-raise k cs (change c.key (λ v. v +ℤ pos c.weight) cur)
    ∙ has_key-change k c.key (λ v. v +ℤ pos c.weight) cur

-- What is raised or lowered is the cursor of that key.
pub cursor-change :
    (j k : String) (f : ℤ → ℤ) (cur : CursorMap)
    → has_key k cur ≡ true
    → cursor j (change k f cur) ≡ (if k == j then f (cursor k cur) else cursor j cur)
unfolding change
cursor-change j k f [] h = absurd (cc)
cursor-change j k f ((i, v) ∷ cur) h =
    ground (arith, cursor-change j k f cur, eq_iff i k, eq_iff i j, eq_iff k j)

-- The weight of a key among the candidates.
unfoldable pub weight_of : String → List Candidate → ℕ
weight_of k [] = 0
weight_of k (c ∷ cs) = (if c.key == k then c.weight else 0) + weight_of k cs

pub cursor-raise :
    (k : String) (cs : List Candidate) (cur : CursorMap)
    → Covered cur cs
    → cursor k (raise cs cur) ≡ cursor k cur +ℤ pos (weight_of k cs)
unfolding raise weight_of
cursor-raise k [] cur h = omega int_laws
cursor-raise k (c ∷ cs) cur h =
    let ih =
      cursor-raise k cs (change c.key (λ v. v +ℤ pos c.weight) cur)
        (Covered-change c.key (λ v. v +ℤ pos c.weight) cur cs h.1) in
    let e = cursor-change k c.key (λ v. v +ℤ pos c.weight) cur h.0 in
    elim (Bool-cases (c.key == k)) [
      | inl same ↦
          let here : c.key ≡ k = (eq_iff c.key k).0 same in
          let e' : cursor k (change c.key (λ v. v +ℤ pos c.weight) cur)
              ≡ cursor c.key cur +ℤ pos c.weight =
            e ∙ (rw same refl) in
          rw same (omega (int_laws, parts ih, parts e', parts (ap (λ j. cursor j cur) here)))
      | inr other ↦
          let e' : cursor k (change c.key (λ v. v +ℤ pos c.weight) cur) ≡ cursor k cur =
            e ∙ (rw other refl) in
          rw other (omega (int_laws, parts ih, parts e'))
    ]

abbrev pub AtMost : CursorMap → String → List Candidate → Type 0
AtMost cur p cs = All (λ c. cursor c.key cur ≤ℤ cursor p cur) cs

-- The first candidate with the largest cursor has the key `p`.
abbrev pub IsFirstBest : CursorMap → String → List Candidate → Type 0
IsFirstBest cur p [] = ⊥
IsFirstBest cur p (c ∷ cs) =
    ((c.key ≡ p) × AtMost cur p cs) ⊎ ((cursor c.key cur <ℤ cursor p cur) × IsFirstBest cur p cs)

-- What the scan makes of the pick so far.
abbrev Scanned : List Candidate → CursorMap → String → String → Type 0
Scanned cs cur pick p =
    ((p ≡ pick) × AtMost cur p cs) ⊎ ((cursor pick cur <ℤ cursor p cur) × IsFirstBest cur p cs)

Scanned-more :
    (c : Candidate) (cs : List Candidate) (cur : CursorMap) (pick p : String)
    → cursor pick cur <ℤ cursor c.key cur
    → Scanned cs cur c.key p
    → Scanned (c ∷ cs) cur pick p
Scanned-more c cs cur pick p h (inl (e, most)) =
    let here : cursor pick cur <ℤ cursor p cur =
      subst (λ x. cursor pick cur <ℤ cursor x cur) (sym e) h in
    inr (here, inl (sym e, most))
Scanned-more c cs cur pick p h (inr (less, first)) = inr (omega arith, inr (less, first))

Scanned-less :
    (c : Candidate) (cs : List Candidate) (cur : CursorMap) (pick p : String)
    → cursor c.key cur ≤ℤ cursor pick cur
    → Scanned cs cur pick p
    → Scanned (c ∷ cs) cur pick p
Scanned-less c cs cur pick p h (inl (e, most)) =
    let here : cursor c.key cur ≤ℤ cursor p cur =
      subst (λ x. cursor c.key cur ≤ℤ cursor x cur) (sym e) h in
    inl (e, (here, most))
Scanned-less c cs cur pick p h (inr (less, first)) = inr (less, inr (omega arith, first))

best-Scanned :
    (cs : List Candidate) (cur : CursorMap) (pick : String) → Scanned cs cur pick (best cs cur pick)
unfolding best
best-Scanned [] cur pick = inl (refl, tt)
best-Scanned (c ∷ cs) cur pick = elim (Bool-cases (ltb_ℤ (cursor pick cur) (cursor c.key cur))) [
  | inl more ↦
      let e : best cs cur c.key ≡ best (c ∷ cs) cur pick = rw more refl in
      subst (Scanned (c ∷ cs) cur pick) e
        (Scanned-more c cs cur pick (best cs cur c.key) (ground arith) (best-Scanned cs cur c.key))
  | inr less ↦
      let e : best cs cur pick ≡ best (c ∷ cs) cur pick = rw less refl in
      subst (Scanned (c ∷ cs) cur pick) e
        (Scanned-less c cs cur pick (best cs cur pick) (ground arith) (best-Scanned cs cur pick))
]

-- The scan starts at the first candidate.
pub best-IsFirstBest :
    (c : Candidate) (cs : List Candidate) (cur : CursorMap)
    → IsFirstBest cur (best (c ∷ cs) cur c.key) (c ∷ cs)
unfolding best
best-IsFirstBest c cs cur =
    let e : best cs cur c.key ≡ best (c ∷ cs) cur c.key = ground arith in
    subst (λ p. IsFirstBest cur p (c ∷ cs)) e (first (best-Scanned cs cur c.key))
  where
    first : {p : String} → Scanned cs cur c.key p → IsFirstBest cur p (c ∷ cs)
    first (inl (e, most)) = inl (sym e, most)
    first (inr (less, best_later)) = inr (less, best_later)
