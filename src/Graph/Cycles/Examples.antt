-- ===== src/Graph/Cycles/Examples.antt =====
-- Cycles of blockers: of the cycle A, B, C only the two ends of the last edge are reported.
use dev_loop.Common.{String, true, some, List, [], ◌∷◌, ◌≡◌, refl, includes}
use dev_loop.Graph.FanOut.{Edges}
use dev_loop.Graph.FanOut.Reaches.{WaitsOn}
use dev_loop.Graph.Cycles.{find_cyclic}
use dev_loop.Graph.Cycles.Sound.Ends.{find_cyclic_sound}

abbrev ring : Edges
ring = ("A", "B" ∷ []) ∷ ("B", "C" ∷ []) ∷ ("C", "A" ∷ []) ∷ []

middle_is_left_out : find_cyclic ring ≡ some ("C" ∷ "A" ∷ [])
unfolding find_cyclic
middle_is_left_out = refl

find_cyclic_sound_example :
    (ids : List String) × (find_cyclic ring ≡ some ids)
    × ((t : String) → includes t ids ≡ true → WaitsOn ring t t)
find_cyclic_sound_example = find_cyclic_sound ring
