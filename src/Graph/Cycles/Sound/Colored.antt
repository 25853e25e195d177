-- ===== src/Graph/Cycles/Sound/Colored.antt =====
-- The ids that have a color, and chains of blockers: hub/src/dependency-graph.ts.
use dev_loop.Common.{
  ℕ, ◌+◌, ◌≤◌, ◌<◌, String, true, false, ◌||◌, List, [], ◌∷◌, ◌==◌, ◌≡◌, ◌∙◌, refl, ap, arith,
  includes, if◌then◌else◌, inl, inr, Bool-cases, eq_iff,
}
use dev_loop.Graph.FanOut.{Edges, members, without}
use dev_loop.Graph.FanOut.Reverse.{lists}
use dev_loop.Graph.FanOut.Reaches.{WaitsOn, lists_it, lists_next}
use dev_loop.Graph.Cycles.{Colors, has_color, is_key, enter_node}

-- The ids of the map without a color.
unfoldable pub whites : Edges → Colors → ℕ
whites [] c = 0
whites ((k, bs) ∷ forward) c = (if has_color k c then 0 else 1) + whites forward c

abbrev pub Grows : Colors → Colors → Type 0
Grows c d = (t : String) → has_color t c ≡ true → has_color t d ≡ true

pub whites-Grows :
    (forward : Edges) (c d : Colors) → Grows c d → whites forward d ≤ whites forward c
unfolding whites
whites-Grows [] c d g = omega arith
whites-Grows ((k, bs) ∷ forward) c d g = ground (arith, g k, whites-Grows forward c d g)

pub whites-enter :
    (forward : Edges) (n : String) (c : Colors)
    → is_key n forward ≡ true
    → has_color n c ≡ false
    → whites forward (enter_node n c) < whites forward c
unfolding whites
whites-enter [] n c k h = absurd (cc)
whites-enter ((j, bs) ∷ forward) n c k h =
    let fewer = whites-Grows forward c (enter_node n c) (λ t e. ground (arith, e)) in
    elim (Bool-cases (j == n)) [
      | inl same ↦
          let e : j ≡ n = (eq_iff j n).0 same in
          let old : has_color j c ≡ false = ap (λ x. has_color x c) e ∙ h in
          let new : has_color j (enter_node n c) ≡ true = ground (arith, eq_iff n j, e) in
          rw (old, new) (omega (arith, fewer))
      | inr other ↦
          ground (arith, other, eq_iff n j, eq_iff j n, whites-enter forward n c (rw other at k) h)
    ]

pub without_self : (n : String) (ts : List String) → includes n ts ≡ false → without n ts ≡ ts
without_self n [] h = refl
without_self n (t ∷ ts) h = ground (arith, without_self n ts)

pub includes-without_other :
    (t n : String) (ts : List String)
    → includes t ts ≡ true
    → ((n == t) || includes t (without n ts)) ≡ true
includes-without_other t n [] h = absurd (cc)
includes-without_other t n (x ∷ xs) h =
    ground (arith, includes-without_other t n xs, eq_iff x n, eq_iff n t, eq_iff x t)

pub members-lists :
    (forward : Edges) (t b : String)
    → includes b (members forward t) ≡ true
    → lists forward t b ≡ true
unfolding lists
members-lists [] t b h = absurd (cc)
members-lists ((k, bs) ∷ forward) t b h = elim (Bool-cases (k == t)) [
  | inl same ↦ rw same (ground (arith, let q : includes b bs ≡ true = rw same at h in q))
  | inr other ↦ rw other (members-lists forward t b (rw other at h))
]

pub WaitsOn-trans :
    {forward : Edges} {b t u : String}
    → WaitsOn forward b t
    → WaitsOn forward t u
    → WaitsOn forward b u
WaitsOn-trans {t} w (lists_it u h) = lists_next t u w h
WaitsOn-trans w (lists_next s u v h) = lists_next s u (WaitsOn-trans w v) h
