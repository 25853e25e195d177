-- ===== src/Graph/Report.antt =====
-- The report of the dependency graph: `dependencyGraph` of hub/src/dependency-graph.ts. `localeCompare` is
-- an argument: does one text not come after another.
pub mod Total
use dev_loop.Common.{
  String, Bool, true, false, not, ◌&&◌, Option, none, some, List, [], ◌∷◌, ◌++◌, ◌==◌, map, filter,
  includes, dedup, sort_texts, is_nil, if◌then◌else◌,
}
use dev_loop.Common.Text.{is_empty}
use dev_loop.Common.Sorting.{sort_by}
use dev_loop.Store.{Db, Ticket}
use dev_loop.Graph.{
  is_terminal, is_open_state, blockers_of, blocker_state, Integrity, blocked_tickets, integrity,
  all_dangling,
}
use dev_loop.Graph.FanOut.{Edges, members, transitive_reverse_fan_out}
use dev_loop.Graph.Cycles.{find_cyclic}

abbrev is_live : String → Ticket → Bool
is_live project_id t = t.project_id == project_id && not (is_terminal t.state)

unfoldable pub edges_of : Db → List String → Edges
edges_of db [] = []
edges_of db (id ∷ ids) =
    let live = (blockers_of db id).live in
    let rest = edges_of db ids in if is_nil live then rest else (id, live) ∷ rest

abbrev pub id_of_row : Ticket → String
id_of_row t = t.id

-- `forward`, in the order of the ids.
unfoldable pub forward_of : Db → String → Edges
unfolding edges_of sort_texts
forward_of db project_id =
    edges_of db (sort_texts (map id_of_row (filter (is_live project_id) db.tickets)))

-- A ticket's column that refers to others.
pub data RefField : Type 0 where
  by_relation by_duplicate : RefField

abbrev field_name : RefField → String
field_name by_relation = "relatedTo"
field_name by_duplicate = "duplicateOf"

pub record DanglingRef : Type 0 where
  pub ticket_id : String
  pub column : RefField
  pub missing : List String

-- The reference of a column, where an id is missing.
abbrev pub ref_where : String → RefField → List String → List DanglingRef
ref_where id column [] = []
ref_where id column (m ∷ ms) = record { ticket_id = id; column = column; missing = m ∷ ms } ∷ []

abbrev pub absent_ids : List String → List String → List String
absent_ids known ids = filter (λ id. not (includes id known)) ids

abbrev pub duplicate_ids : Option String → List String
duplicate_ids none = []
duplicate_ids (some id) = if is_empty id then [] else id ∷ []

unfoldable pub refs_of_row : List String → Ticket → List DanglingRef
unfolding sort_texts
refs_of_row known t =
    ref_where t.id by_relation (sort_texts (absent_ids known t.related_to))
    ++ ref_where t.id by_duplicate (absent_ids known (duplicate_ids t.duplicate_of))

unfoldable pub refs_of_rows : List String → List Ticket → List DanglingRef
unfolding refs_of_row
refs_of_rows known [] = []
refs_of_rows known (t ∷ ts) = refs_of_row known t ++ refs_of_rows known ts

unfoldable pub missing_ids : List DanglingRef → List String
missing_ids [] = []
missing_ids (r ∷ rs) = r.missing ++ missing_ids rs

pub record FanOutRow : Type 0 where
  pub blocker_id : String
  pub direct : List String
  pub transitive : List String

pub record BlockedEdge : Type 0 where
  pub ticket_id : String
  pub blockers : List String

-- `IntegrityFlags`.
pub record Flags : Type 0 where
  pub of_edges : Integrity
  pub cyclic : Bool

-- `DependencyGraphReport`.
pub record Report : Type 0 where
  pub blocked_edges : List BlockedEdge
  pub reverse_fan_out : List FanOutRow
  pub flags : List Flags
  pub dangling : List String
  pub dangling_refs : List DanglingRef
  pub dangling_ref_ids : List String
  pub gating_open : List String

unfoldable pub gated_by : String → Edges → List String
gated_by b [] = []
gated_by b ((id, blockers) ∷ forward) =
    let rest = gated_by b forward in if includes b blockers then id ∷ rest else rest

unfoldable pub fan_out_row : Edges → Edges → String → FanOutRow
unfolding gated_by sort_texts
fan_out_row forward reverse b = record {
  blocker_id = b;
  direct = sort_texts (gated_by b forward);
  transitive = sort_texts (members reverse b);
}

unfoldable pub edge_of : Db → String → BlockedEdge
unfolding sort_texts
edge_of db id = record { ticket_id = id; blockers = sort_texts (blockers_of db id).live }

unfoldable pub flags_of : List String → Integrity → Flags
flags_of cyclic i = record { of_edges = i; cyclic = includes i.ticket_id cyclic }

module _ (not_after : String → String → Bool) where
  -- The order by `localeCompare` of the ticket, then of the column.
  unfoldable pub ref_not_after : DanglingRef → DanglingRef → Bool
  ref_not_after a b =
      if not_after a.ticket_id b.ticket_id
      then if not_after b.ticket_id a.ticket_id
        then not_after (field_name a.column) (field_name b.column)
        else true
      else false

  unfoldable pub assemble : Db → String → List String → Edges → Report
  unfolding forward_of refs_of_rows missing_ids fan_out_row edge_of flags_of ref_not_after sort_by
      sort_texts dedup
  assemble db project_id cyclic reverse =
      let forward = forward_of db project_id in
      let rows = filter (λ t. t.project_id == project_id) db.tickets in
      let refs = sort_by ref_not_after (refs_of_rows (map id_of_row rows) rows) in
      let blockers = sort_texts (map (λ e. e.0) reverse) in
      record {
        blocked_edges =
            sort_by (λ a b. not_after a.ticket_id b.ticket_id)
              (map (edge_of db) (blocked_tickets db project_id));
        reverse_fan_out = map (fan_out_row forward reverse) blockers;
        flags = map (flags_of cyclic) (integrity db project_id);
        dangling = all_dangling db project_id;
        dangling_refs = refs;
        dangling_ref_ids = sort_texts (dedup (missing_ids refs));
        gating_open = sort_texts (filter (λ b. is_open_state (blocker_state db b)) blockers);
      }

  unfoldable pub assemble_from : Db → String → Option (List String) → Option Edges → Option Report
  unfolding assemble
  assemble_from db project_id (some cyclic) (some reverse) =
      some (assemble db project_id cyclic reverse)
  assemble_from db project_id _ _ = none

  -- `dependencyGraph`; `none` means that the fuel of a search ran out.
  unfoldable pub dependency_graph : Db → String → Option Report
  unfolding assemble_from forward_of
  dependency_graph db project_id =
      let forward = forward_of db project_id in
      assemble_from db project_id (find_cyclic forward) (transitive_reverse_fan_out forward)
