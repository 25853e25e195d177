-- ===== src/Rotation/Fairness.antt =====
-- What a project is picked over a run of fires: hub/src/rotation.ts.
use dev_loop.Common.{
  ℕ, zero, suc, ◌+◌, ◌*◌, ◌<◌, String, Bool, true, false, Option, none, some, List, [], ◌∷◌, ◌≡◌,
  refl, ◌==◌, ◌∙◌, arith, inl, inr, eq_iff, if◌then◌else◌, Bool-cases, ap, any,
}
use dev_loop.Common.Int.{pos, pos_part, neg_part, ◌-ℤ◌, int_laws, parts}
use dev_loop.Rotation.{
  Candidate, CursorMap, cursor, prune, total_weight, change, advance, smooth_wrr_step,
  sort_candidates,
}
use dev_loop.Rotation.Step.{has_key, cursor-raise, cursor-change, weight_of}
use dev_loop.Rotation.Balance.{Distinct, Aligned-prune, Covered-Aligned}
use dev_loop.Rotation.Floor.{Settled, raised, the_pick, raised-has_key, advance-Settled}

-- The picks of so many fires of one agent, with the cursors that they leave.
unfoldable pub fires : ℕ → List Candidate → CursorMap → List (Option String) × CursorMap
fires zero cs cur = ([], cur)
fires (suc n) cs cur =
    let (pick, cur') = smooth_wrr_step cs cur in
    let (picks, last) = fires n cs cur' in (pick ∷ picks, last)

abbrev is_pick : String → Option String → Bool
is_pick k none = false
is_pick k (some p) = p == k

-- How often a project is among the picks.
unfoldable pub picked : String → List (Option String) → ℕ
picked k [] = 0
picked k (p ∷ ps) = (if is_pick k p then 1 else 0) + picked k ps

-- Is the key a candidate's.
abbrev pub is_candidate : String → List Candidate → Bool
is_candidate k cs = any (λ c. c.key == k) cs

pub has_key-prune :
    (k : String) (cs : List Candidate) (cur : CursorMap)
    → has_key k (prune cs cur) ≡ is_candidate k cs
unfolding prune
has_key-prune k [] cur = refl
has_key-prune k (c ∷ cs) cur = ground (arith, has_key-prune k cs cur)

pub cursor-prune :
    (k : String) (cs : List Candidate) (cur : CursorMap)
    → is_candidate k cs ≡ true
    → cursor k (prune cs cur) ≡ cursor k cur
unfolding prune
cursor-prune k [] cur h = absurd (cc)
cursor-prune k (c ∷ cs) cur h = elim (Bool-cases (c.key == k)) [
  | inl same ↦ rw same (ap (λ j. cursor j cur) ((eq_iff c.key k).0 same))
  | inr other ↦ rw other (cursor-prune k cs cur (rw other at h))
]

-- One fire: the cursor grows by the weight, and the pick pays the total weight.
advance-cursor :
    (k : String) (c : Candidate) (cs : List Candidate) (cur : CursorMap)
    → is_candidate k (c ∷ cs) ≡ true
    → pos_part (cursor k (advance (c ∷ cs) cur).1)
        + picked k ((advance (c ∷ cs) cur).0 ∷ []) * total_weight (c ∷ cs)
        + neg_part (cursor k cur)
      ≡ neg_part (cursor k (advance (c ∷ cs) cur).1)
        + pos_part (cursor k cur)
        + weight_of k (c ∷ cs)
unfolding advance picked
advance-cursor k c cs cur h =
    let t = total_weight (c ∷ cs) in
    let r = raised c cs cur in
    let p = the_pick c cs cur in
    let up =
      cursor-raise k (c ∷ cs) (prune (c ∷ cs) cur)
        (Covered-Aligned (c ∷ cs) (prune (c ∷ cs) cur) (Aligned-prune (c ∷ cs) cur)) in
    let before = cursor-prune k (c ∷ cs) cur h in
    let after = cursor-change k p (λ v. v -ℤ pos t) r (raised-has_key c cs cur) in
    elim (Bool-cases (p == k)) [
      | inl same ↦
          let e : cursor k (change p (λ v. v -ℤ pos t) r) ≡ cursor k r -ℤ pos t =
            after ∙ (rw same (ap (λ j. cursor j r -ℤ pos t) ((eq_iff p k).0 same))) in
          rw same (omega (int_laws, parts up, parts before, parts e))
      | inr other ↦
          let e : cursor k (change p (λ v. v -ℤ pos t) r) ≡ cursor k r = after ∙ (rw other refl) in
          rw other (omega (int_laws, parts up, parts before, parts e))
    ]

step-Settled :
    (cs : List Candidate) (cur : CursorMap)
    → Distinct cs
    → 0 < total_weight cs
    → Settled cs cur
    → Settled cs (advance cs cur).1
unfolding total_weight
step-Settled [] cur di p s = elim p [ ]
step-Settled (c ∷ cs) cur di p s = advance-Settled c cs cur di p s

step-cursor :
    (k : String) (cs : List Candidate) (cur : CursorMap)
    → is_candidate k cs ≡ true
    → pos_part (cursor k (advance cs cur).1)
        + picked k ((advance cs cur).0 ∷ []) * total_weight cs
        + neg_part (cursor k cur)
      ≡ neg_part (cursor k (advance cs cur).1) + pos_part (cursor k cur) + weight_of k cs
step-cursor k [] cur h = absurd (cc)
step-cursor k (c ∷ cs) cur h = advance-cursor k c cs cur h

picked-cons :
    (k : String) (p : Option String) (ps : List (Option String)) (t : ℕ)
    → picked k (p ∷ ps) * t ≡ picked k (p ∷ []) * t + picked k ps * t
unfolding picked
picked-cons k p ps t = grind arith

module _ (cs : List Candidate) where
  abbrev ordered : List Candidate
  ordered = sort_candidates cs

  pub fires-Settled :
      (n : ℕ) (cur : CursorMap)
      → Distinct ordered
      → 0 < total_weight ordered
      → Settled ordered cur
      → Settled ordered (fires n cs cur).1
  unfolding fires smooth_wrr_step
  fires-Settled zero cur di p s = s
  fires-Settled (suc n) cur di p s =
      fires-Settled n (advance ordered cur).1 di p (step-Settled ordered cur di p s)

  pub fires-cursor :
      (k : String) (n : ℕ) (cur : CursorMap)
      → is_candidate k ordered ≡ true
      → pos_part (cursor k (fires n cs cur).1)
          + picked k (fires n cs cur).0 * total_weight ordered
          + neg_part (cursor k cur)
        ≡ neg_part (cursor k (fires n cs cur).1) + pos_part (cursor k cur) + n * weight_of k ordered
  unfolding fires smooth_wrr_step picked
  fires-cursor k zero cur h = omega arith
  fires-cursor k (suc n) cur h =
      let next = (advance ordered cur).1 in
      omega (
        arith,
        fires-cursor k n next h,
        step-cursor k ordered cur h,
        picked-cons k (advance ordered cur).0 (fires n cs next).0 (total_weight ordered),
      )
