-- ===== src/Design.antt =====
-- Design parents and the children that they staged: hub/src/design-parent.ts.
pub mod Pointer
pub mod Examples
use dev_loop.Common.{
  String, Bool, true, false, not, ◌&&◌, ◌||◌, Option, none, some, List, [], ◌∷◌, ◌++◌, map, ◌==◌,
  all, filter, includes, dedup, is_some, if◌then◌else◌, ◌or_else◌, get_or, is_nil,
}
use dev_loop.Common.Text.{is_empty}
use Pointer.{
  design_pointer_of, parent_pointer, unwrap_code_span, doc_slug_of, declares_non_design_mode,
  is_design_mode_body,
}

-- The columns of a ticket that the derivation reads.
pub record DesignRow : Type 0 where
  pub id : String
  pub description : String
  pub related_to : List String

-- A child that is about to be inserted.
pub record PendingChild : Type 0 where
  pub description : String
  pub related_to : List String

abbrev pub pending_id : String
pending_id = "\0pending"

-- A `Set` of ids in the order of insertion, and a `Map` from ids to such sets.
abbrev pub add : String → List String → List String
add x xs = if includes x xs then xs else xs ++ x ∷ []

abbrev pub SetMap : Type 0
SetMap = List (String × List String)

unfoldable pub entry : String → SetMap → List String
entry k [] = []
entry k ((j, v) ∷ m) = let rest = entry k m in if j == k then v else rest

unfoldable pub join : String → String → SetMap → SetMap
join k x [] = (k, x ∷ []) ∷ []
join k x ((j, v) ∷ m) = let rest = join k x m in if j == k then (j, add x v) ∷ m else (j, v) ∷ rest

-- `slugToChildren.set(slug, [...old, id])`, a list and not a set.
push : String → List String → SetMap → SetMap
push k xs [] = (k, xs) ∷ []
push k xs ((j, v) ∷ m) =
    let rest = push k xs m in if j == k then (j, v ++ xs) ∷ m else (j, v) ∷ rest

pub record Derivation : Type 0 where
  pub parents : List String
  pub owner_by_slug : List (String × String)
  pub children_by_parent : SetMap

unfoldable pub record_child : String → String → SetMap → SetMap
unfolding join
record_child parent child m = if child == pending_id then m else join parent child m

-- The first loop: pointers that name a parent, and the children of each slug.
scan_row : List String → DesignRow → Derivation × SetMap → Derivation × SetMap
unfolding record_child push
scan_row on_board t (d, slugs) = elim (design_pointer_of t.description) [
  | none ↦ (d, slugs)
  | some ptr ↦ elim (parent_pointer (unwrap_code_span ptr)) [
    | some p ↦
        if includes p on_board
        then (
          record d {
            parents = add p d.parents;
            children_by_parent = record_child p t.id d.children_by_parent;
          },
          slugs,
        )
        else (d, slugs)
    | none ↦ elim (doc_slug_of ptr) [
      | none ↦ (d, slugs)
      | some slug ↦ if is_empty slug then (d, slugs) else (d, push slug (t.id ∷ []) slugs)
    ]
  ]
]

scan_rows : List String → List DesignRow → Derivation × SetMap → Derivation × SetMap
scan_rows on_board [] acc = acc
scan_rows on_board (t ∷ ts) acc = scan_rows on_board ts (scan_row on_board t acc)

-- The slug of a child that is not on the board yet.
pending_slug : Option PendingChild → Option String
pending_slug none = none
pending_slug (some p) = elim (design_pointer_of p.description) [
  | none ↦ none
  | some ptr ↦ if is_some (parent_pointer (unwrap_code_span ptr)) then none else doc_slug_of ptr
]

pending_row : Option PendingChild → Option String → List DesignRow
pending_row (some p) (some slug) =
    record { id = pending_id; description = p.description; related_to = p.related_to } ∷ []
pending_row _ _ = []

-- `declared.get(id)`: the tickets on the board that `id` itself names.
unfoldable pub declared : List DesignRow → List String → String → List String
declared [] on_board id = []
declared (t ∷ ts) on_board id =
    let rest = declared ts on_board id in
    if t.id == id then filter (λ o. includes o on_board) t.related_to ++ rest else rest

-- `linked.get(a)?.has(b)`.
linked : List DesignRow → List String → String → String → Bool
unfolding declared
linked board on_board a b =
    includes b (declared board on_board a) || includes a (declared board on_board b)

the_only : List String → Option String
the_only (x ∷ []) = some x
the_only _ = none

-- The parent that a child names: its only candidate, or the only one that names it back.
declared_parent_of : List DesignRow → List String → List String → String → Option String
unfolding declared the_only
declared_parent_of board on_board candidates c =
    let named = filter (λ o. includes o candidates) (dedup (declared board on_board c)) in
    let mutual_links = filter (λ o. includes c (declared board on_board o)) named in
    the_only named or_else the_only mutual_links

owners_of_children : (String → Option String) → List String → List (String × String)
owners_of_children parent_of [] = []
owners_of_children parent_of (c ∷ cs) =
    let rest = owners_of_children parent_of cs in
    elim (parent_of c) [ none ↦ rest | some p ↦ (c, p) ∷ rest ]

unfoldable pub lookup : String → List (String × String) → Option String
lookup k [] = none
lookup k ((j, v) ∷ m) = let rest = lookup k m in if j == k then some v else rest

record_children : List (String × String) → Option String → List String → SetMap → SetMap
unfolding record_child lookup
record_children owner_of sole [] m = m
record_children owner_of sole (c ∷ cs) m = elim (lookup c owner_of or_else sole) [
  | none ↦ record_children owner_of sole cs m
  | some p ↦ record_children owner_of sole cs (record_child p c m)
]

add_all : List String → List String → List String
add_all xs [] = xs
add_all xs (y ∷ ys) = add_all (add y xs) ys

set_owner : String → Option String → List (String × String) → List (String × String)
set_owner slug none m = m
set_owner slug (some o) m = (slug, o) ∷ m

-- The round of the second loop for one slug.
resolve_slug :
    List DesignRow → List String → Option String → (String × List String) → Derivation → Derivation
unfolding declared_parent_of linked the_only owners_of_children lookup record_children add_all
    set_owner
resolve_slug board on_board pending (slug, children) d =
    let pending_here = get_or (elim pending [ none ↦ none | some s ↦ some (s == slug) ]) false in
    let all_children = if pending_here then children ++ pending_id ∷ [] else children in
    let candidates =
      map (λ (t : DesignRow). t.id)
        (filter
          (λ t. not (includes t.id all_children) && not (declares_non_design_mode t.description))
          board) in
    let owner_of = owners_of_children (declared_parent_of board on_board candidates) all_children in
    let declared_owners = dedup (map (λ (e : String × String). e.1) owner_of) in
    let undirected =
      if is_nil children
      then []
      else filter (λ t. all (λ c. linked board on_board t c) children) candidates in
    let owners =
      if is_nil declared_owners
      then (if is_some (the_only undirected) then undirected else [])
      else declared_owners in
    let sole = the_only owners in
    let own = if pending_here then lookup pending_id owner_of else none in
    record {
      parents = add_all d.parents owners;
      owner_by_slug = set_owner slug (own or_else sole) d.owner_by_slug;
      children_by_parent = record_children owner_of sole all_children d.children_by_parent;
    }

resolve_slugs : List DesignRow → List String → Option String → SetMap → Derivation → Derivation
resolve_slugs board on_board pending [] d = d
resolve_slugs board on_board pending (s ∷ ss) d =
    resolve_slugs board on_board pending ss (resolve_slug board on_board pending s d)

touch : Option String → SetMap → SetMap
unfolding push
touch none m = m
touch (some slug) m = push slug [] m

abbrev empty_derivation : Derivation
empty_derivation = record { parents = []; owner_by_slug = []; children_by_parent = [] }

unfoldable pub resolve_design_parents : List DesignRow → Option PendingChild → Derivation
unfolding scan_rows scan_row pending_slug pending_row touch resolve_slugs resolve_slug
resolve_design_parents rows pending =
    let ids = map (λ (t : DesignRow). t.id) rows in
    let (d, slugs) = scan_rows ids rows (empty_derivation, []) in
    let slug = pending_slug pending in
    let extra = pending_row pending slug in
    let on_board = ids ++ map (λ (t : DesignRow). t.id) extra in
    resolve_slugs (rows ++ extra) on_board slug (touch slug slugs) d

unfoldable pub design_parent_ids : List DesignRow → List String
design_parent_ids rows = (resolve_design_parents rows none).parents

unfoldable pub design_owner_of_slug : List DesignRow → String → Option PendingChild → Option String
unfolding lookup
design_owner_of_slug rows slug pending =
    lookup slug (resolve_design_parents rows pending).owner_by_slug

unfoldable pub design_children_of : List DesignRow → String → List String
unfolding entry
design_children_of rows parent = entry parent (resolve_design_parents rows none).children_by_parent

unfoldable pub is_design_parent : String → String → List String → Bool
is_design_parent id description parent_ids =
    is_design_mode_body description || includes id parent_ids
