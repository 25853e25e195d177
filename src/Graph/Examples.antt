-- ===== src/Graph/Examples.antt =====
-- A parked ticket whose blocker is done.
use dev_loop.Common.{
  not, ◌&&◌, includes, any, map, le_text, String, true, false, none, some, [], ◌∷◌, ◌≡◌, refl,
}
use dev_loop.Store.{State, done, in_progress, Ticket, Db}
use dev_loop.Blockers.{parse_marker_lines, readable}
use dev_loop.Blockers.Live.{last_says}
use dev_loop.Graph.{integrity_of, blocker_state, is_terminal}
use dev_loop.Graph.Report.{Report, assemble, dependency_graph, id_of_row}
use dev_loop.Graph.Report.Total.{report_total, refers, rows_of}
use dev_loop.Graph.Unpark.{ordered_comments, unpark_resolved}

abbrev row : String → State → Ticket
row id state = record {
  id = id;
  project_id = "p";
  title = "";
  description = "";
  type = "Bug";
  state = state;
  assignee = none;
  priority = 0;
  labels = "blocked" ∷ [];
  duplicate_of = none;
  related_to = [];
  waiting_on = none;
  created_by = "pm";
  created_at = 1;
  updated_at = 1;
}

abbrev db : Db
db = record {
  tickets = row "LOOP-1" done ∷ row "LOOP-2" in_progress ∷ [];
  comments =
      record {
        id = "c1";
        ticket_id = "LOOP-2";
        author = "pm";
        body = "Blocked-by: LOOP-1";
        created_at = 3;
      }
      ∷ [];
  events = [];
  actors = [];
  projects = [];
}

unparked : (integrity_of db "LOOP-2").unpark_eligible ≡ true
unfolding integrity_of dev_loop.Blockers.live_blocker_ids dev_loop.Ticket.Labels.order_by_time
unparked = refl

named :
    last_says "LOOP-1" (parse_marker_lines (readable (ordered_comments db "LOOP-2"))) false ≡ true
unfolding last_says parse_marker_lines readable dev_loop.Ticket.Labels.order_by_time
named = refl

unpark_resolved_example :
    (s : State) × (blocker_state db "LOOP-1" ≡ some s) × (is_terminal s ≡ true)
unpark_resolved_example = unpark_resolved db "LOOP-2" "LOOP-1" unparked named

report_total_example :
    (r : Report) × (dependency_graph le_text db "p" ≡ some r)
    × (includes "LOOP-9" r.dangling_ref_ids
        ≡ not (includes "LOOP-9" (map id_of_row (rows_of db "p")))
          && any (refers "LOOP-9") (rows_of db "p"))
report_total_example = report_total le_text db "p" "LOOP-9"

-- A reference to a ticket that is gone.
abbrev referring : Db
referring = record db {
  tickets = record (row "LOOP-2" in_progress) { related_to = "LOOP-9" ∷ [] } ∷ [];
}

referring_tells : (assemble le_text referring "p" [] []).dangling_ref_ids ≡ "LOOP-9" ∷ []
unfolding assemble
referring_tells = refl
