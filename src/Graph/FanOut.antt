-- ===== src/Graph/FanOut.antt =====
-- What a blocker gates, directly and through others: `transitiveReverseFanOut` of
-- hub/src/dependency-graph.ts. A set is the list of its elements in the order of their insertion.
pub mod Reverse
pub mod Walk
pub mod Reaches
pub mod Examples
use dev_loop.Common.{
  ℕ, zero, suc, ◌+◌, String, Bool, true, false, not, Option, none, some, List, [], ◌∷◌, ◌++◌, ◌==◌,
  filter, includes, is_nil, length, get_or, if◌then◌else◌,
}
use dev_loop.Common.Maps.{lookup, set}

-- A map from texts to sets of texts.
abbrev pub Edges : Type 0
Edges = List (String × List String)

-- `set.add(t)`.
abbrev pub add : String → List String → List String
add t s = if includes t s then s else s ++ t ∷ []

-- `map.get(k) ?? []`.
abbrev pub members : Edges → String → List String
members m k = get_or (lookup k m) []

-- The loop over the blockers of one ticket, which enters the ticket under each.
unfoldable pub enter : String → List String → Edges → Edges
enter t [] m = m
enter t (b ∷ bs) m = enter t bs (set b (add t (members m b)) m)

-- `reverse`: blocker to the tickets that list it.
unfoldable pub reverse_into : Edges → Edges → Edges
unfolding enter
reverse_into [] m = m
reverse_into ((t, bs) ∷ forward) m = reverse_into forward (enter t bs m)

-- `for (const child of children) stack.push(child)`; the top of the stack stands first.
unfoldable pub push_all : List String → List String → List String
push_all [] stack = stack
push_all (c ∷ cs) stack = push_all cs (c ∷ stack)

-- The `while` loop on fuel; `none` means that the fuel ran out.
unfoldable pub walk : Edges → ℕ → List String → List String → Option (List String)
unfolding push_all
walk m zero visited stack = none
walk m (suc fuel) visited [] = some visited
walk m (suc fuel) visited (c ∷ stack) =
    if includes c visited
    then walk m fuel visited stack
    else walk m fuel (visited ++ c ∷ []) (push_all (members m c) stack)

-- The entries of the map, counted by their members.
unfoldable pub edge_count : Edges → ℕ
edge_count [] = 0
edge_count ((k, ts) ∷ m) = length ts + edge_count m

-- The entry of one blocker: what the walk from its tickets visits, without the blocker.
abbrev pub without : String → List String → List String
without b visited = filter (λ t. not (t == b)) visited

abbrev pub drop_self : String → Option (List String) → Option (List String)
drop_self b none = none
drop_self b (some visited) = some (without b visited)

unfoldable pub fan_out_of : Edges → String → Option (List String)
unfolding walk edge_count
fan_out_of m b =
    let stack = push_all (members m b) [] in
    drop_self b (walk m (suc (length stack + edge_count m)) [] stack)

unfoldable pub put_entry : String → Option (List String) → Option Edges → Option Edges
put_entry b none rest = none
put_entry b (some gated) none = none
put_entry b (some gated) (some rest) = some (if is_nil gated then rest else (b, gated) ∷ rest)

-- The loop over the keys of `reverse`.
unfoldable pub fan_outs : Edges → Edges → Option Edges
unfolding fan_out_of put_entry
fan_outs m [] = some []
fan_outs m ((b, ts) ∷ keys) = put_entry b (fan_out_of m b) (fan_outs m keys)

unfoldable pub transitive_reverse_fan_out : Edges → Option Edges
unfolding fan_outs reverse_into
transitive_reverse_fan_out forward = let m = reverse_into forward [] in fan_outs m m
