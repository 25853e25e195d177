-- ===== src/Rotation/Shares.antt =====
-- The shares of the projects over a run of fires, from an empty state: hub/src/rotation.ts.
use dev_loop.Common.{
  ℕ, ◌+◌, ◌*◌, ◌≤◌, ◌<◌, String, true, none, some, List, [], ◌∷◌, ◌≡◌, refl, ◌==◌, arith, inl, inr,
  ◌⊎◌, Bool-cases, length, ◌∙◌,
}
use mathlib.Core.Path.{subst}
use dev_loop.Common.Int.{pos_part, neg_part, int_laws, parts}
use dev_loop.Rotation.{
  Candidate, CursorMap, cursor, prune, total_weight, advance, raise, smooth_wrr_step,
  sort_candidates,
}
use dev_loop.Rotation.Step.{balance, has_key, weight_of, IsFirstBest, best-IsFirstBest}
use dev_loop.Rotation.Balance.{Distinct}
use dev_loop.Rotation.Floor.{Above, Above-cursor, Settled, start-Settled, raised}
use dev_loop.Rotation.Fairness.{
  fires, picked, is_candidate, fires-Settled, fires-cursor, cursor-prune, has_key-prune,
}

-- A cursor above the others by as much as all may lie below 0.
balance_lower :
    (t : ℕ) (cur : CursorMap)
    → Above t cur
    → neg_part (balance cur) ≤ pos_part (balance cur) + length cur * t
unfolding balance
balance_lower t [] h = omega arith
balance_lower t ((k, v) ∷ cur) h = omega (int_laws, h.0, balance_lower t cur h.1)

cursor-le :
    (t : ℕ) (k : String) (cur : CursorMap)
    → Above t cur
    → has_key k cur ≡ true
    → pos_part (cursor k cur) + neg_part (balance cur)
      ≤ pos_part (balance cur) + neg_part (cursor k cur) + length cur * t
unfolding balance
cursor-le t k [] h m = absurd (cc)
cursor-le t k ((j, v) ∷ cur) h m = elim (Bool-cases (j == k)) [
  | inl same ↦ rw same (omega (int_laws, h.0, balance_lower t cur h.1))
  | inr other ↦ rw other (omega (int_laws, h.0, cursor-le t k cur h.1 (rw other at m)))
]

length-prune : (cs : List Candidate) (cur : CursorMap) → length (prune cs cur) ≡ length cs
unfolding prune
length-prune [] cur = refl
length-prune (c ∷ cs) cur = omega (arith, length-prune cs cur)

module _ (cs : List Candidate) (di : Distinct (sort_candidates cs)) where
  module _ (p : 0 < total_weight (sort_candidates cs)) where
    settled : (n : ℕ) → Settled (sort_candidates cs) (fires n cs []).1
    settled n = fires-Settled cs n [] di p (start-Settled (sort_candidates cs) p)

    low :
        (n : ℕ) (k : String)
        → is_candidate k (sort_candidates cs) ≡ true
        → neg_part (cursor k (fires n cs []).1)
          < pos_part (cursor k (fires n cs []).1) + total_weight (sort_candidates cs)
    low n k h =
        subst (λ x. neg_part x < pos_part x + total_weight (sort_candidates cs))
          (cursor-prune k (sort_candidates cs) (fires n cs []).1 h)
          (Above-cursor (total_weight (sort_candidates cs)) k
            (prune (sort_candidates cs) (fires n cs []).1) p (settled n).above)

    high :
        (n : ℕ) (k : String)
        → is_candidate k (sort_candidates cs) ≡ true
        → pos_part (cursor k (fires n cs []).1)
          ≤ neg_part (cursor k (fires n cs []).1)
            + length (sort_candidates cs) * total_weight (sort_candidates cs)
    high n k h =
        let s = sort_candidates cs in
        let last = (fires n cs []).1 in
        let e = cursor-prune k s last h in
        let le =
          cursor-le (total_weight s) k (prune s last) (settled n).above
            (has_key-prune k s last ∙ h) in
        subst (λ m. pos_part (cursor k last) ≤ neg_part (cursor k last) + m * total_weight s)
          (length-prune s last) (omega (arith, le, parts e, parts (settled n).balanced))

-- From an empty state and over any number of fires with the same candidates, of distinct keys and a
-- total weight above 0, the cursor of each candidate stays above the negated total weight, and at most
-- the number of candidates times the total weight.
pub cursor_bounds :
    (cs : List Candidate) (n : ℕ) (k : String)
    → Distinct (sort_candidates cs)
    → 0 < total_weight (sort_candidates cs)
    → is_candidate k (sort_candidates cs) ≡ true
    → (neg_part (cursor k (fires n cs []).1)
        < pos_part (cursor k (fires n cs []).1) + total_weight (sort_candidates cs))
      × (pos_part (cursor k (fires n cs []).1)
          ≤ neg_part (cursor k (fires n cs []).1)
            + length (sort_candidates cs) * total_weight (sort_candidates cs))
cursor_bounds cs n k di p h = (low cs di p n k h, high cs di p n k h)

-- From an empty state, over n fires with the same candidates of distinct keys and a total weight t above
-- 0, a candidate of weight w is picked less often than n * w / t + 1 times, and at least n * w / t times
-- less the number of candidates.
pub fair_share :
    (cs : List Candidate) (n : ℕ) (k : String)
    → Distinct (sort_candidates cs)
    → 0 < total_weight (sort_candidates cs)
    → is_candidate k (sort_candidates cs) ≡ true
    → (picked k (fires n cs []).0 * total_weight (sort_candidates cs)
        < n * weight_of k (sort_candidates cs) + total_weight (sort_candidates cs))
      × (n * weight_of k (sort_candidates cs)
          ≤ picked k (fires n cs []).0 * total_weight (sort_candidates cs)
            + length (sort_candidates cs) * total_weight (sort_candidates cs))
fair_share cs n k di p h =
    omega (arith, low cs di p n k h, high cs di p n k h, fires-cursor cs k n [] h)

-- A step picks the first candidate, in the order of the keys, whose raised cursor no other exceeds: each
-- before it has a smaller one, and each behind it no larger one. Without candidates there is no pick.
pub step_pick :
    (cs : List Candidate) (cur : CursorMap)
    → ((sort_candidates cs ≡ []) × (smooth_wrr_step cs cur ≡ (none, [])))
      ⊎ ((p : String) × ((smooth_wrr_step cs cur).0 ≡ some p)
          × IsFirstBest
              (raise (sort_candidates cs) (prune (sort_candidates cs) cur))
              p
              (sort_candidates cs))
unfolding smooth_wrr_step
step_pick cs cur = of_ordered (sort_candidates cs)
  where
    of_ordered :
        (s : List Candidate)
        → ((s ≡ []) × (advance s cur ≡ (none, [])))
          ⊎ ((p : String) × ((advance s cur).0 ≡ some p) × IsFirstBest (raise s (prune s cur)) p s)
    of_ordered [] = inl (refl, refl)
    of_ordered (c ∷ ds) = inr (_, refl, best-IsFirstBest c ds (raised c ds cur))
