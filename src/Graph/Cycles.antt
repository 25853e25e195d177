-- ===== src/Graph/Cycles.antt =====
-- The search for cycles of blockers: `findCyclic` of hub/src/dependency-graph.ts.
pub mod Sound
pub mod Examples
use dev_loop.Common.{
  ℕ, zero, suc, ◌+◌, String, Bool, true, false, not, ◌&&◌, ◌||◌, Option, none, some, List, [], ◌∷◌,
  ◌==◌, includes, length, if◌then◌else◌,
}
use dev_loop.Graph.FanOut.{Edges, add, members, without}

-- The ids that are GRAY and BLACK; an id of the map that is neither is WHITE.
pub record Colors : Type 0 where
  pub gray : List String
  pub black : List String
  pub cyclic : List String

abbrev pub has_color : String → Colors → Bool
has_color n c = includes n c.gray || includes n c.black

abbrev pub is_key : String → Edges → Bool
is_key n [] = false
is_key n ((k, bs) ∷ forward) = k == n || is_key n forward

abbrev pub is_white : Edges → String → Colors → Bool
is_white forward n c = is_key n forward && not (has_color n c)

-- `color.set(node, GRAY)` and `color.set(node, BLACK)`.
abbrev pub enter_node : String → Colors → Colors
enter_node n c = record c { gray = n ∷ c.gray }

abbrev pub leave_node : String → Colors → Colors
leave_node n c = record c { gray = without n c.gray; black = n ∷ c.black }

abbrev pub mark : String → String → Colors → Colors
mark node n c = record c { cyclic = add n (add node c.cyclic) }

abbrev pub and_then : Option Colors → (Colors → Option Colors) → Option Colors
and_then none f = none
and_then (some c) f = f c

-- One neighbor; `visit` is the recursive call.
abbrev pub try_neighbor :
    Edges → (String → Colors → Option Colors) → String → String → Colors → Option Colors
try_neighbor forward visit node n c =
    if includes n c.gray
    then some (mark node n c)
    else if is_white forward n c
    then visit n c
    else some c

unfoldable pub each_neighbor :
    Edges → (String → Colors → Option Colors) → String → List String → Colors → Option Colors
each_neighbor forward visit node [] c = some c
each_neighbor forward visit node (n ∷ ns) c =
    and_then (try_neighbor forward visit node n c) (each_neighbor forward visit node ns)

-- `dfs` on fuel; `none` means that the fuel ran out.
unfoldable pub dfs : Edges → ℕ → String → Colors → Option Colors
unfolding each_neighbor
dfs forward zero node c = none
dfs forward (suc fuel) node c =
    and_then
      (each_neighbor forward (dfs forward fuel) node (members forward node) (enter_node node c))
      (λ c'. some (leave_node node c'))

-- The loop over the ids.
unfoldable pub each_root : Edges → ℕ → Edges → Colors → Option Colors
unfolding dfs
each_root forward fuel [] c = some c
each_root forward fuel ((n, bs) ∷ keys) c =
    and_then (if is_white forward n c then dfs forward fuel n c else some c)
      (each_root forward fuel keys)

abbrev pub cyclic_of : Option Colors → Option (List String)
cyclic_of none = none
cyclic_of (some c) = some c.cyclic

abbrev pub no_colors : Colors
no_colors = record { gray = []; black = []; cyclic = [] }

unfoldable pub find_cyclic : Edges → Option (List String)
unfolding each_root
find_cyclic forward = cyclic_of (each_root forward (suc (length forward)) forward no_colors)
