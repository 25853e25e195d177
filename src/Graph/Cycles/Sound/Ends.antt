-- ===== src/Graph/Cycles/Sound/Ends.antt =====
-- Each call of the search ends, and reports what waits on itself.
use dev_loop.Common.{
  ℕ, zero, suc, ◌≤◌, ◌<◌, String, true, false, Option, some, List, [], ◌∷◌, ◌==◌, ◌≡◌, ◌⊎◌, ◌∙◌,
  sym, refl, ap, arith, includes, length, inl, inr, Bool-cases, eq_iff,
}
use mathlib.Core.Path.{subst}
use dev_loop.Graph.FanOut.{Edges, add, members, without}
use dev_loop.Graph.FanOut.Reverse.{includes-add}
use dev_loop.Graph.FanOut.Reaches.{WaitsOn, lists_it}
use dev_loop.Graph.Cycles.{
  Colors, is_white, enter_node, leave_node, mark, try_neighbor, each_neighbor, dfs, each_root,
  no_colors, find_cyclic,
}
use dev_loop.Graph.Cycles.Sound.Colored.{
  whites, Grows, whites-Grows, whites-enter, without_self, includes-without_other, members-lists,
  WaitsOn-trans,
}

-- What is reported waits on itself.
abbrev IsSound : Edges → Colors → Type 0
IsSound forward c = (t : String) → includes t c.cyclic ≡ true → WaitsOn forward t t

-- The gray ids are those on the path to a node: they wait on it.
abbrev OnPath : Edges → String → Colors → Type 0
OnPath forward node c = (g : String) → includes g c.gray ≡ true → WaitsOn forward node g

-- What a call makes of the colors.
record Kept (forward : Edges) (c d : Colors) : Type 0 where
  same_gray : d.gray ≡ c.gray
  grows : Grows c d
  is_sound : IsSound forward d

abbrev Ends : Edges → Colors → Option Colors → Type 0
Ends forward c r = (d : Colors) × (r ≡ some d) × Kept forward c d

Kept-trans :
    {forward : Edges} {c d e : Colors} → Kept forward c d → Kept forward d e → Kept forward c e
Kept-trans p q = record {
  same_gray = q.same_gray ∙ p.same_gray;
  grows = λ t h. q.grows t (p.grows t h);
  is_sound = q.is_sound;
}

-- The colors while the neighbors of a node are visited.
abbrev Inside : Edges → String → Colors → Type 0
Inside forward node c =
    (g : String) → includes g c.gray ≡ true → (g ≡ node) ⊎ WaitsOn forward node g

module _ (forward : Edges) (visit : String → Colors → Option Colors) (node : String)
    (bound : ℕ) where
  module _
      (visit_ends : (n : String) (c : Colors)
        → whites forward c < bound
        → is_white forward n c ≡ true
        → OnPath forward n c
        → IsSound forward c
        → Ends forward c (visit n c)) where
    -- A neighbor that is gray closes a cycle.
    mark-Kept :
        (n : String) (c : Colors)
        → WaitsOn forward n node
        → includes n c.gray ≡ true
        → Inside forward node c
        → IsSound forward c
        → Kept forward c (mark node n c)
    mark-Kept n c lists_n gray_n inside so = record {
      same_gray = refl;
      grows = λ t h. h;
      is_sound = λ t h. elim (Bool-cases (includes t c.cyclic)) [
        | inl old ↦ so t old
        | inr new ↦ elim (Bool-cases (node == t)) [
          | inl at_node ↦ subst (λ x. WaitsOn forward x x) ((eq_iff node t).0 at_node) at_cycle
          | inr other ↦
              let at_n : (n == t) ≡ true = ground (
                arith,
                h,
                new,
                other,
                includes-add t n (add node c.cyclic),
                includes-add t node c.cyclic,
              ) in
              subst (λ x. WaitsOn forward x x) ((eq_iff n t).0 at_n) at_next
        ]
      ];
    }
      where
        at_next : WaitsOn forward n n
        at_next = elim (inside n gray_n) [
          | inl e ↦ subst (λ x. WaitsOn forward n x) (sym e) lists_n
          | inr w ↦ WaitsOn-trans lists_n w
        ]

        at_cycle : WaitsOn forward node node
        at_cycle = elim (inside n gray_n) [
          | inl e ↦ subst (λ x. WaitsOn forward x node) e lists_n
          | inr w ↦ WaitsOn-trans w lists_n
        ]

    try-Ends :
        (n : String) (c : Colors)
        → WaitsOn forward n node
        → whites forward c < bound
        → Inside forward node c
        → IsSound forward c
        → Ends forward c (try_neighbor forward visit node n c)
    try-Ends n c lists_n w inside so = elim (Bool-cases (includes n c.gray)) [
      | inl gray_n ↦ (mark node n c, ground (arith, gray_n), mark-Kept n c lists_n gray_n inside so)
      | inr not_gray ↦ elim (Bool-cases (is_white forward n c)) [
        | inl white ↦
            let e : visit n c ≡ try_neighbor forward visit node n c =
              ground (arith, not_gray, white) in
            subst (Ends forward c) e (visit_ends n c w white (λ g h. path g (inside g h)) so)
        | inr colored ↦ (
          c,
          ground (arith, not_gray, colored),
          record { same_gray = refl; grows = λ t h. h; is_sound = so },
        )
      ]
    ]
      where
        path : (g : String) → (g ≡ node) ⊎ WaitsOn forward node g → WaitsOn forward n g
        path g (inl e) = subst (λ x. WaitsOn forward n x) (sym e) lists_n
        path g (inr v) = WaitsOn-trans lists_n v

    each-Ends :
        (ns : List String) (c : Colors)
        → ((n : String) → includes n ns ≡ true → WaitsOn forward n node)
        → whites forward c < bound
        → Inside forward node c
        → IsSound forward c
        → Ends forward c (each_neighbor forward visit node ns c)
    unfolding each_neighbor
    each-Ends [] c listed w inside so =
        (c, refl, record { same_gray = refl; grows = λ t h. h; is_sound = so })
    each-Ends (n ∷ ns) c listed w inside so =
        let (d, one, kept) = try-Ends n c (listed n (ground (arith, eq_iff n n))) w inside so in
        let fewer = whites-Grows forward c d kept.grows in
        let (e, rest, kept') =
          each-Ends ns d (λ m h. listed m (ground (arith, h))) (omega arith)
            (λ g h. inside g (subst (λ x. includes g x ≡ true) kept.same_gray h)) kept.is_sound in
        (e, rw one rest, Kept-trans kept kept')

enter_node-Inside :
    (forward : Edges) (node : String) (c : Colors)
    → OnPath forward node c
    → Inside forward node (enter_node node c)
enter_node-Inside forward node c on g h = elim (Bool-cases (node == g)) [
  | inl same ↦ inl (sym ((eq_iff node g).0 same))
  | inr other ↦ inr (on g (ground (arith, h, other)))
]

leave-Kept :
    (forward : Edges) (n : String) (c d : Colors)
    → includes n c.gray ≡ false
    → Kept forward (enter_node n c) d
    → Kept forward c (leave_node n d)
leave-Kept forward n c d new kept = record {
  same_gray =
      ap (without n) kept.same_gray ∙ (ground (arith, eq_iff n n, without_self n c.gray new));
  grows = λ t h. ground (arith, h, kept.grows t, eq_iff n t, includes-without_other t n d.gray);
  is_sound = kept.is_sound;
}

-- With more fuel than ids without a color a call ends, restores the path, and reports soundly.
dfs-Ends :
    (forward : Edges) (fuel : ℕ) (n : String) (c : Colors)
    → whites forward c < fuel
    → is_white forward n c ≡ true
    → OnPath forward n c
    → IsSound forward c
    → Ends forward c (dfs forward fuel n c)
unfolding dfs
dfs-Ends forward zero n c w white on so = elim w [ ]
dfs-Ends forward (suc fuel) n c w white on so =
    let fewer = whites-enter forward n c (ground (arith, white)) (ground (arith, white)) in
    let (d, one, kept) =
      each-Ends forward (dfs forward fuel) n fuel (dfs-Ends forward fuel) (members forward n)
        (enter_node n c) (λ m h. lists_it n (members-lists forward n m h)) (omega arith)
        (enter_node-Inside forward n c on) so in
    (leave_node n d, rw one refl, leave-Kept forward n c d (ground (arith, white)) kept)

abbrev RootsEnd : Edges → Option Colors → Type 0
RootsEnd forward r = (d : Colors) × (r ≡ some d) × IsSound forward d

roots-End :
    (forward keys : Edges) (fuel : ℕ) (c : Colors)
    → whites forward c < fuel
    → c.gray ≡ []
    → IsSound forward c
    → RootsEnd forward (each_root forward fuel keys c)
unfolding each_root
roots-End forward [] fuel c w none_gray so = (c, refl, so)
roots-End forward ((n, bs) ∷ keys) fuel c w none_gray so =
    elim (Bool-cases (is_white forward n c)) [
      | inl white ↦
          let (d, one, kept) =
            dfs-Ends forward fuel n c w white
              (λ g h. absurd (cc (sym (ap (includes g) none_gray) ∙ h))) so in
          let fewer = whites-Grows forward c d kept.grows in
          let (e, rest, sound') =
            roots-End forward keys fuel d (omega arith) (kept.same_gray ∙ none_gray)
              kept.is_sound in
          (e, rw (white, one) rest, sound')
      | inr colored ↦
          let (e, rest, sound') = roots-End forward keys fuel c w none_gray so in
          (e, rw colored rest, sound')
    ]

whites-start : (forward : Edges) → whites forward no_colors ≤ length forward
unfolding whites
whites-start [] = omega arith
whites-start ((k, bs) ∷ forward) = omega (arith, whites-start forward)

-- The search for cycles ends on every board, with fuel for one call more than the board has ids, and
-- each id that it reports waits on itself through a chain of listed blockers.
pub find_cyclic_sound :
    (forward : Edges)
    → (ids : List String) × (find_cyclic forward ≡ some ids)
      × ((t : String) → includes t ids ≡ true → WaitsOn forward t t)
unfolding find_cyclic
find_cyclic_sound forward =
    let (d, found, so) =
      roots-End forward forward (suc (length forward)) no_colors
        (omega (arith, whites-start forward)) refl (λ t h. absurd (cc)) in
    (d.cyclic, rw found refl, so)
