-- ===== src/Graph/FanOut/Reaches.antt =====
-- The fan-out of a project's board, in terms of the blockers that its tickets list.
use dev_loop.Common.{
  String, Bool, true, false, not, ◌&&◌, ◌||◌, some, List, [], ◌∷◌, ◌==◌, ◌≡◌, ◌↔◌, refl, ◌∙◌, sym,
  arith, includes, is_nil, if◌then◌else◌, inl, inr, Bool-cases, eq_iff, ap,
}
use mathlib.Core.Path.{subst}
use dev_loop.Graph.FanOut.{
  Edges, members, reverse_into, without, fan_out_of, fan_outs, put_entry,
  transitive_reverse_fan_out,
}
use dev_loop.Graph.FanOut.Reverse.{lists, members-reverse_into}
use dev_loop.Graph.FanOut.Walk.{Gates, direct, through, walk_from}

-- A chain of tickets, each of which lists the one before as a blocker, leads from the blocker to the
-- ticket.
pub data WaitsOn (forward : Edges) (b : String) : String → Type 0 where
  lists_it : (t : String) → lists forward t b ≡ true → WaitsOn forward b t
  lists_next : (t u : String) → WaitsOn forward b t → lists forward u t ≡ true → WaitsOn forward b u

module _ (forward : Edges) where
  edge : (t b : String) → includes t (members (reverse_into forward []) b) ≡ lists forward t b
  edge t b = members-reverse_into forward [] t b

  WaitsOn-Gates : {b t : String} → Gates (reverse_into forward []) b t → WaitsOn forward b t
  WaitsOn-Gates {b} (direct t h) = lists_it t (sym (edge t b) ∙ h)
  WaitsOn-Gates (through t u g h) = lists_next t u (WaitsOn-Gates g) (sym (edge u t) ∙ h)

  Gates-WaitsOn : {b t : String} → WaitsOn forward b t → Gates (reverse_into forward []) b t
  Gates-WaitsOn {b} (lists_it t h) = direct t (edge t b ∙ h)
  Gates-WaitsOn (lists_next t u w h) = through t u (Gates-WaitsOn w) (edge u t ∙ h)

abbrev has_key : String → Edges → Bool
has_key b [] = false
has_key b ((k, ts) ∷ m) = k == b || has_key b m

includes-without :
    (t b : String) (vs : List String) → includes t (without b vs) ≡ includes t vs && not (t == b)
includes-without t b [] = refl
includes-without t b (v ∷ vs) = elim (Bool-cases (v == t)) [
  | inl same ↦
      let e : v ≡ t = (eq_iff v t).0 same in
      ground (arith, same, includes-without t b vs, ap (λ x. x == b) e)
  | inr other ↦ ground (arith, other, includes-without t b vs)
]

members-has_key : (t b : String) (m : Edges) → includes t (members m b) ≡ true → has_key b m ≡ true
members-has_key t b [] h = absurd (cc)
members-has_key t b ((k, ts) ∷ m) h = elim (Bool-cases (k == b)) [
  | inl same ↦ rw same refl
  | inr other ↦ rw other (members-has_key t b m (rw other at h))
]

Gates-has_key : {m : Edges} {b t : String} → Gates m b t → has_key b m ≡ true
Gates-has_key {m} {b} (direct t h) = members-has_key t b m h
Gates-has_key (through t u g h) = Gates-has_key g

-- The tickets of the entry of a blocker.
abbrev IsGated : Edges → String → String → Type 0
IsGated m b t = Gates m b t × ((t == b) ≡ false)

fan_out_of_lem :
    (m : Edges) (b : String)
    → (gated : List String) × (fan_out_of m b ≡ some gated)
      × ((t : String) → (includes t gated ≡ true) ↔ IsGated m b t)
unfolding fan_out_of
fan_out_of_lem m b =
    let (vs, found, which) = walk_from m b in
    (
      without b vs,
      rw found refl,
      λ t. (
        λ h. (
          (which t).0 (ground (arith, h, includes-without t b vs)),
          ground (arith, h, includes-without t b vs),
        ),
        λ h. ground (arith, (which t).1 h.0, h.1, includes-without t b vs),
      ),
    )

entry_iff :
    (m r : Edges) (k b t : String) (others : Bool) (gated : List String)
    → ((includes t gated ≡ true) ↔ IsGated m k t)
    → ((includes t (members r b) ≡ true) ↔ ((others ≡ true) × IsGated m b t))
    → (includes t (members (if is_nil gated then r else (k, gated) ∷ r) b) ≡ true)
      ↔ (((k == b || others) ≡ true) × IsGated m b t)
entry_iff m r k b t others [] which rest = elim (Bool-cases (k == b)) [
  | inl same ↦
      let w = subst (λ j. (false ≡ true) ↔ IsGated m j t) ((eq_iff k b).0 same) which in
      (λ h. (rw same refl, ((rest.0 h).1)), λ h. absurd (cc (w.1 h.1)))
  | inr other ↦ rw other rest
]
entry_iff m r k b t others (g ∷ gs) which rest = elim (Bool-cases (k == b)) [
  | inl same ↦
      let w =
        subst (λ j. (includes t (g ∷ gs) ≡ true) ↔ IsGated m j t) ((eq_iff k b).0 same) which in
      rw same (λ h. (refl, w.0 h), λ h. w.1 h.1)
  | inr other ↦ rw other rest
]

fan_outs_lem :
    (m keys : Edges)
    → (r : Edges) × (fan_outs m keys ≡ some r)
      × ((b t : String)
          → (includes t (members r b) ≡ true) ↔ ((has_key b keys ≡ true) × IsGated m b t))
unfolding fan_outs put_entry
fan_outs_lem m [] = ([], refl, λ b t. (λ h. absurd (cc), λ h. absurd (cc (h.0))))
fan_outs_lem m ((k, ts) ∷ keys) =
    let (gated, one, which) = fan_out_of_lem m k in
    let (r, rest, others) = fan_outs_lem m keys in
    (
      if is_nil gated then r else (k, gated) ∷ r,
      rw (one, rest) refl,
      λ b t. entry_iff m r k b t (has_key b keys) gated (which t) (others b t),
    )

-- The fan-out of every board is computed: the walk of each blocker ends within as many rounds as it has
-- tickets and the reverse map has entries, and one more. A ticket stands in the entry of a blocker exactly
-- when it is another ticket and a chain of tickets, each of which lists the one before, leads to it from
-- the blocker.
pub fan_out_total :
    (forward : Edges)
    → (r : Edges) × (transitive_reverse_fan_out forward ≡ some r)
      × ((b t : String)
          → (includes t (members r b) ≡ true) ↔ (WaitsOn forward b t × ((t == b) ≡ false)))
unfolding transitive_reverse_fan_out
fan_out_total forward =
    let m = reverse_into forward [] in
    let (r, found, which) = fan_outs_lem m m in
    (
      r,
      found,
      λ b t. (
        λ h. let (has, (g, other)) = (which b t).0 h in (WaitsOn-Gates forward g, other),
        λ h. let g = Gates-WaitsOn forward h.0 in (which b t).1 (Gates-has_key g, (g, h.1)),
      ),
    )
