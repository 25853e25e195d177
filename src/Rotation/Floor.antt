-- ===== src/Rotation/Floor.antt =====
-- A step keeps the balance of the cursors at 0 and each cursor above the negated total weight.
use dev_loop.Common.{
  ℕ, ◌+◌, ◌<◌, String, true, List, [], ◌∷◌, ◌≡◌, refl, ◌==◌, sym, arith, inl, inr, ◌⊎◌, Bool-cases,
  All,
}
use mathlib.Core.Path.{subst}
use dev_loop.Common.Int.{ℤ, pos, pos_part, neg_part, ◌+ℤ◌, ◌-ℤ◌, ◌≤ℤ◌, ◌<ℤ◌, int_laws, parts}
use dev_loop.Rotation.{
  Candidate, CursorMap, cursor, prune, total_weight, change, raise, best, advance,
}
use dev_loop.Rotation.Step.{
  balance, has_key, Covered, balance-raise, balance-lowered, AtMost, IsFirstBest, best-IsFirstBest,
}
use dev_loop.Rotation.Balance.{
  Distinct, Aligned, Aligned-prune, Aligned-raise, Aligned-change, Covered-Aligned, prune-same,
  balance-le,
}

-- Every cursor is above -t.
abbrev pub Above : ℕ → CursorMap → Type 0
Above t cur = All (λ e. neg_part e.1 < pos_part e.1 + t) cur

Above-raised :
    (t : ℕ) (k : String) (w : ℕ) (cur : CursorMap)
    → Above t cur
    → Above t (change k (λ v. v +ℤ pos w) cur)
unfolding change
Above-raised t k w [] h = tt
Above-raised t k w ((j, v) ∷ cur) h = elim (Bool-cases (j == k)) [
  | inl same ↦ rw same (omega (int_laws, h.0), h.1)
  | inr other ↦ rw other (h.0, Above-raised t k w cur h.1)
]

Above-raise : (t : ℕ) (cs : List Candidate) (cur : CursorMap) → Above t cur → Above t (raise cs cur)
unfolding raise
Above-raise t [] cur h = h
Above-raise t (c ∷ cs) cur h =
    Above-raise t cs (change c.key (λ v. v +ℤ pos c.weight) cur)
      (Above-raised t c.key c.weight cur h)

-- A cursor above 0 may be lowered by t.
Above-lowered :
    (t : ℕ) (k : String) (cur : CursorMap)
    → Above t cur
    → pos 0 <ℤ cursor k cur
    → Above t (change k (λ v. v -ℤ pos t) cur)
unfolding change
Above-lowered t k [] h p = tt
Above-lowered t k ((j, v) ∷ cur) h p = elim (Bool-cases (j == k)) [
  | inl same ↦ rw same (omega (int_laws, let q : pos 0 <ℤ v = rw same at p in q), h.1)
  | inr other ↦ rw other (h.0, Above-lowered t k cur h.1 (rw other at p))
]

pub Above-cursor :
    (t : ℕ) (k : String) (cur : CursorMap)
    → 0 < t
    → Above t cur
    → neg_part (cursor k cur) < pos_part (cursor k cur) + t
Above-cursor t k [] p h = omega arith
Above-cursor t k ((j, v) ∷ cur) p h = elim (Bool-cases (j == k)) [
  | inl same ↦ rw same h.0
  | inr other ↦ rw other (Above-cursor t k cur p h.1)
]

pub IsFirstBest-AtMost :
    (cs : List Candidate) (cur : CursorMap) (p : String) → IsFirstBest cur p cs → AtMost cur p cs
IsFirstBest-AtMost [] cur p h = tt
IsFirstBest-AtMost (c ∷ cs) cur p (inl (e, most)) =
    (subst (λ j. cursor c.key cur ≤ℤ cursor j cur) e (omega arith), most)
IsFirstBest-AtMost (c ∷ cs) cur p (inr (less, first)) =
    (omega arith, IsFirstBest-AtMost cs cur p first)

pub IsFirstBest-has_key :
    (cs : List Candidate) (cur : CursorMap) (p : String)
    → Covered cur cs
    → IsFirstBest cur p cs
    → has_key p cur ≡ true
IsFirstBest-has_key [] cur p h b = absurd b
IsFirstBest-has_key (c ∷ cs) cur p h (inl (e, most)) = subst (λ j. has_key j cur ≡ true) e h.0
IsFirstBest-has_key (c ∷ cs) cur p h (inr (less, first)) = IsFirstBest-has_key cs cur p h.1 first

AtMost-zero :
    (cs : List Candidate) (cur : CursorMap) (p : String)
    → cursor p cur ≤ℤ pos 0
    → AtMost cur p cs
    → All (λ c. cursor c.key cur ≤ℤ pos 0) cs
AtMost-zero [] cur p z h = tt
AtMost-zero (c ∷ cs) cur p z h = (omega (arith, h.0), AtMost-zero cs cur p z h.1)

-- The cursors that the next step starts from.
pub record Settled (cs : List Candidate) (cur : CursorMap) : Type 0 where
  pub balanced : balance (prune cs cur) ≡ pos 0
  pub above : Above (total_weight cs) (prune cs cur)

balance-start : (cs : List Candidate) → balance (prune cs []) ≡ pos 0
unfolding balance prune
balance-start [] = refl
balance-start (c ∷ cs) = omega (int_laws, parts (balance-start cs))

Above-start : (t : ℕ) (cs : List Candidate) → 0 < t → Above t (prune cs [])
unfolding prune
Above-start t [] p = tt
Above-start t (c ∷ cs) p = (omega arith, Above-start t cs p)

pub start-Settled : (cs : List Candidate) → 0 < total_weight cs → Settled cs []
start-Settled cs p = record {
  balanced = balance-start cs;
  above = Above-start (total_weight cs) cs p;
}

module _ (c : Candidate) (cs : List Candidate) (cur : CursorMap) where
  abbrev all_candidates : List Candidate
  all_candidates = c ∷ cs

  abbrev pub raised : CursorMap
  raised = raise (c ∷ cs) (prune (c ∷ cs) cur)

  abbrev pub the_pick : String
  the_pick = best (c ∷ cs) raised c.key

  pub raised-Aligned : Aligned (c ∷ cs) raised
  raised-Aligned = Aligned-raise (c ∷ cs) (c ∷ cs) (prune (c ∷ cs) cur) (Aligned-prune (c ∷ cs) cur)

  pub raised-has_key : has_key the_pick raised ≡ true
  raised-has_key =
      IsFirstBest-has_key (c ∷ cs) raised the_pick (Covered-Aligned (c ∷ cs) raised raised-Aligned)
        (best-IsFirstBest c cs raised)

  balance-raised_all : balance raised ≡ balance (prune (c ∷ cs) cur) +ℤ pos (total_weight (c ∷ cs))
  balance-raised_all =
      balance-raise (c ∷ cs) (prune (c ∷ cs) cur)
        (Covered-Aligned (c ∷ cs) (prune (c ∷ cs) cur) (Aligned-prune (c ∷ cs) cur))

  -- The pick's cursor is above 0 before it is lowered.
  pick_positive :
      Distinct (c ∷ cs)
      → 0 < total_weight (c ∷ cs)
      → balance (prune (c ∷ cs) cur) ≡ pos 0
      → pos 0 <ℤ cursor the_pick raised
  pick_positive di p zero_before = elim (le_or_lt (cursor the_pick raised)) [
    | inl small ↦
        let most = IsFirstBest-AtMost (c ∷ cs) raised the_pick (best-IsFirstBest c cs raised) in
        let sum_small =
          balance-le (c ∷ cs) raised raised-Aligned di
            (AtMost-zero (c ∷ cs) raised the_pick small most) in
        absurd (omega (int_laws, sum_small, parts balance-raised_all, parts zero_before, p))
    | inr large ↦ large
  ]
    where
      le_or_lt : (x : ℤ) → (x ≤ℤ pos 0) ⊎ (pos 0 <ℤ x)
      le_or_lt x = omega arith

  pub advance-Settled :
      Distinct (c ∷ cs)
      → 0 < total_weight (c ∷ cs)
      → Settled (c ∷ cs) cur
      → Settled (c ∷ cs) (advance (c ∷ cs) cur).1
  unfolding advance
  advance-Settled di p s =
      let t = total_weight (c ∷ cs) in
      let next = change the_pick (λ v. v -ℤ pos t) raised in
      let same : prune (c ∷ cs) next ≡ next =
        prune-same (c ∷ cs) next
          (Aligned-change the_pick (λ v. v -ℤ pos t) (c ∷ cs) raised raised-Aligned) di in
      let lowered = balance-lowered the_pick t raised raised-has_key in
      let sum : balance next ≡ pos 0 =
        omega (int_laws, parts lowered, parts balance-raised_all, parts s.balanced) in
      let above : Above t next =
        Above-lowered t the_pick raised (Above-raise t (c ∷ cs) (prune (c ∷ cs) cur) s.above)
          (pick_positive di p s.balanced) in
      record {
        balanced = subst (λ m. balance m ≡ pos 0) (sym same) sum;
        above = subst (Above t) (sym same) above;
      }
