-- ===== src/Graph/FanOut/Walk.antt =====
-- The walk ends within its fuel, at exactly the tickets that chains of edges lead to.
use dev_loop.Common.{
  ℕ, zero, suc, ◌+◌, ◌≤◌, ◌<◌, String, Bool, true, false, ◌||◌, some, List, [], ◌∷◌, ◌++◌, ◌==◌,
  ◌≡◌, ◌↔◌, refl, ◌∙◌, sym, arith, includes, length, if◌then◌else◌, inl, inr, Bool-cases, eq_iff,
  ap,
}
use dev_loop.Graph.FanOut.{Edges, members, push_all, walk, edge_count}
use dev_loop.Graph.FanOut.Reverse.{includes-append}

-- The entries of the keys that are not visited.
unfoldable pub work : Edges → List String → ℕ
work [] visited = 0
work ((k, ts) ∷ m) visited = (if includes k visited then 0 else length ts) + work m visited

work-visit :
    (c : String) (visited : List String) (m : Edges)
    → includes c visited ≡ false
    → work m (visited ++ c ∷ []) + length (members m c) ≤ work m visited
unfolding work
work-visit c visited [] h = omega arith
work-visit c visited ((k, ts) ∷ m) h =
    let ih = work-visit c visited m h in
    let here = includes-append k visited (c ∷ []) in
    elim (Bool-cases (k == c)) [
      | inl same ↦
          let new : includes k visited ≡ false =
            ap (λ j. includes j visited) ((eq_iff k c).0 same) ∙ h in
          let old : includes k (visited ++ c ∷ []) ≡ true =
            ground (arith, here, eq_iff k c, eq_iff c k) in
          rw (same, new, old) (omega (arith, ih))
      | inr other ↦
          let kept : includes k (visited ++ c ∷ []) ≡ includes k visited =
            ground (arith, here, other, eq_iff k c, eq_iff c k) in
          rw (other, kept) (omega (arith, ih))
    ]

pub length-push_all :
    (cs stack : List String) → length (push_all cs stack) ≡ length cs + length stack
unfolding push_all
length-push_all [] stack = omega arith
length-push_all (c ∷ cs) stack = omega (arith, length-push_all cs (c ∷ stack))

pub includes-push_all :
    (t : String) (cs stack : List String)
    → includes t (push_all cs stack) ≡ includes t cs || includes t stack
unfolding push_all
includes-push_all t [] stack = refl
includes-push_all t (c ∷ cs) stack = ground (arith, includes-push_all t cs (c ∷ stack))

-- A chain of edges leads from the blocker to the ticket.
pub data Gates (m : Edges) (b : String) : String → Type 0 where
  direct : (t : String) → includes t (members m b) ≡ true → Gates m b t
  through : (t u : String) → Gates m b t → includes u (members m t) ≡ true → Gates m b u

abbrev seen : String → List String → List String → Bool
seen t visited stack = includes t visited || includes t stack

record Walked (m : Edges) (b : String) (visited stack : List String) : Type 0 where
  sound : (t : String) → seen t visited stack ≡ true → Gates m b t
  roots : (t : String) → includes t (members m b) ≡ true → seen t visited stack ≡ true
  closed :
      (t u : String)
      → includes t visited ≡ true
      → includes u (members m t) ≡ true
      → seen u visited stack ≡ true

complete :
    {m : Edges} {b : String} {visited : List String}
    → Walked m b visited []
    → {t : String} → Gates m b t
    → includes t visited ≡ true
complete {visited} w (direct t h) = ground (arith, w.roots t h)
complete {visited} w (through t u g h) = ground (arith, w.closed t u (complete w g) h)

module _ (m : Edges) (b c : String) (visited stack : List String) where
  -- A ticket that is on the stack again is dropped.
  drop-Walked :
      includes c visited ≡ true → Walked m b visited (c ∷ stack) → Walked m b visited stack
  drop-Walked old w = record {
    sound = λ t h. w.sound t (ground (arith, h));
    roots = λ t h. ground (arith, w.roots t h, eq_iff c t, old, move t);
    closed = λ t u h e. ground (arith, w.closed t u h e, eq_iff c u, old, move u);
  }
    where
      move : (t : String) → (c == t) ≡ true → includes t visited ≡ true
      move t e = sym (ap (λ j. includes j visited) ((eq_iff c t).0 e)) ∙ old

  -- A new ticket is visited, and its tickets are pushed.
  visit-Walked :
      Walked m b visited (c ∷ stack) → Walked m b (visited ++ c ∷ []) (push_all (members m c) stack)
  visit-Walked w = record {
    sound = λ t h. elim (Bool-cases (includes t (members m c))) [
      | inl child ↦ through c t at_c child
      | inr other ↦ w.sound t (ground (arith, h, other, pushed t, visited_now t))
    ];
    roots = λ t h. ground (arith, w.roots t h, pushed t, visited_now t);
    closed = λ t u h e. elim (Bool-cases (c == t)) [
      | inl same ↦
          let e' : includes u (members m c) ≡ true =
            ap (λ j. includes u (members m j)) ((eq_iff c t).0 same) ∙ e in
          ground (arith, e', pushed u)
      | inr other ↦
          let before : includes t visited ≡ true = ground (arith, h, other, visited_now t) in
          ground (arith, w.closed t u before e, pushed u, visited_now u)
    ];
  }
    where
      at_c : Gates m b c
      at_c = w.sound c (ground (arith, eq_iff c c))

      pushed :
          (t : String)
          → includes t (push_all (members m c) stack) ≡ includes t (members m c) || includes t stack
      pushed t = includes-push_all t (members m c) stack

      visited_now : (t : String) → includes t (visited ++ c ∷ []) ≡ includes t visited || c == t
      visited_now t = ground (arith, includes-append t visited (c ∷ []))

walk_finds :
    (m : Edges) (b : String) (fuel : ℕ) (visited stack : List String)
    → length stack + work m visited < fuel
    → Walked m b visited stack
    → (vs : List String) × (walk m fuel visited stack ≡ some vs)
      × ((t : String) → (includes t vs ≡ true) ↔ Gates m b t)
unfolding walk
walk_finds m b zero visited stack h w = elim h [ ]
walk_finds m b (suc fuel) visited [] h w =
    (visited, refl, λ t. (λ i. w.sound t (ground (arith, i)), complete w))
walk_finds m b (suc fuel) visited (c ∷ stack) h w = elim (Bool-cases (includes c visited)) [
  | inl old ↦
      rw old
        (walk_finds m b fuel visited stack (omega arith) (drop-Walked m b c visited stack old w))
  | inr new ↦ rw new (
      walk_finds m b fuel (visited ++ c ∷ []) (push_all (members m c) stack)
        (omega (arith, work-visit c visited m new, length-push_all (members m c) stack))
        (visit-Walked m b c visited stack w))
]

work-start : (m : Edges) → work m [] ≡ edge_count m
unfolding work edge_count
work-start [] = refl
work-start ((k, ts) ∷ m) = omega (arith, work-start m)

-- The walk from the tickets of a blocker.
pub walk_from :
    (m : Edges) (b : String)
    → (vs : List String) × (walk m
          (suc (length (push_all (members m b) []) + edge_count m))
          []
          (push_all (members m b) [])
        ≡ some vs)
      × ((t : String) → (includes t vs ≡ true) ↔ Gates m b t)
walk_from m b =
    let stack = push_all (members m b) [] in
    walk_finds m b (suc (length stack + edge_count m)) [] stack (omega (arith, work-start m))
      record {
        sound = λ t h. direct t (ground (arith, h, includes-push_all t (members m b) []));
        roots = λ t h. ground (arith, h, includes-push_all t (members m b) []);
        closed = λ t u h e. absurd (cc);
      }
