-- ===== src/Graph/FanOut/Reverse.antt =====
-- The reverse map has exactly the edges of the forward map, turned round.
use dev_loop.Common.{
  String, Bool, false, ◌&&◌, ◌||◌, List, [], ◌∷◌, ◌++◌, ◌==◌, ◌≡◌, refl, ◌∙◌, arith, includes,
  if◌then◌else◌, inl, inr, Bool-cases, eq_iff, ap,
}
use mathlib.Core.Path.{subst}
use dev_loop.Common.Maps.{set, lookup-set, lookup-set-other}
use dev_loop.Graph.FanOut.{Edges, add, members, enter, reverse_into}

pub includes-append :
    (t : String) (xs ys : List String) → includes t (xs ++ ys) ≡ includes t xs || includes t ys
includes-append t [] ys = refl
includes-append t (x ∷ xs) ys = ground (arith, includes-append t xs ys)

pub includes-add : (u t : String) (s : List String) → includes u (add t s) ≡ includes u s || t == u
includes-add u t s = ground (arith, includes-append u s (t ∷ []), eq_iff t u)

-- Does a ticket list a blocker.
unfoldable pub lists : Edges → String → String → Bool
lists [] t b = false
lists ((u, bs) ∷ forward) t b = (u == t && includes b bs) || lists forward t b

members-set :
    (b c : String) (s : List String) (m : Edges)
    → members (set b s m) c ≡ (if b == c then s else members m c)
members-set b c s m = elim (Bool-cases (b == c)) [
  | inl same ↦
      let here : members (set b s m) b ≡ s = rw (lookup-set b s m) refl in
      rw same (subst (λ k. members (set b s m) k ≡ s) ((eq_iff b c).0 same) here)
  | inr other ↦ rw other (rw (lookup-set-other c b s m other) refl)
]

members-enter :
    (t u c : String) (bs : List String) (m : Edges)
    → includes u (members (enter t bs m) c) ≡ includes u (members m c) || (t == u && includes c bs)
unfolding enter
members-enter t u c [] m = ground arith
members-enter t u c (b ∷ bs) m =
    let later = members-enter t u c bs (set b (add t (members m b)) m) in
    let now = members-set b c (add t (members m b)) m in
    elim (Bool-cases (b == c)) [
      | inl same ↦
          let added : members (set b (add t (members m b)) m) c ≡ add t (members m c) =
            now ∙ (rw same (ap (λ k. add t (members m k)) ((eq_iff b c).0 same))) in
          ground (arith, same, later, ap (includes u) added, includes-add u t (members m c))
      | inr other ↦
          let kept : members (set b (add t (members m b)) m) c ≡ members m c =
            now ∙ (rw other refl) in
          ground (arith, other, later, ap (includes u) kept)
    ]

pub members-reverse_into :
    (forward m : Edges) (t b : String)
    → includes t (members (reverse_into forward m) b)
      ≡ includes t (members m b) || lists forward t b
unfolding reverse_into lists
members-reverse_into [] m t b = ground arith
members-reverse_into ((u, bs) ∷ forward) m t b =
    ground (arith, members-reverse_into forward (enter u bs m) t b, members-enter u t b bs m)
