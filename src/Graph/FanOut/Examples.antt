-- ===== src/Graph/FanOut/Examples.antt =====
-- The fan-out of a chain with a cycle: B waits on A, C on B, and A on C.
use dev_loop.Common.{
  String, Bool, true, false, Option, none, some, List, [], ◌∷◌, ◌==◌, ◌≡◌, ◌↔◌, refl, includes,
  arith,
}
use dev_loop.Graph.FanOut.{Edges, members, transitive_reverse_fan_out}
use dev_loop.Graph.FanOut.Reaches.{WaitsOn, fan_out_total}

abbrev ring : Edges
ring = ("A", "C" ∷ []) ∷ ("B", "A" ∷ []) ∷ ("C", "B" ∷ []) ∷ []

ring_fan_out :
    transitive_reverse_fan_out ring
    ≡ some (("C", "A" ∷ "B" ∷ []) ∷ ("A", "B" ∷ "C" ∷ []) ∷ ("B", "C" ∷ "A" ∷ []) ∷ [])
unfolding transitive_reverse_fan_out dev_loop.Common.Maps.set
ring_fan_out = refl

fan_out_total_example :
    (r : Edges) × (transitive_reverse_fan_out ring ≡ some r)
    × ((b t : String) → (includes t (members r b) ≡ true) ↔ (WaitsOn ring b t × ((t == b) ≡ false)))
fan_out_total_example = fan_out_total ring
