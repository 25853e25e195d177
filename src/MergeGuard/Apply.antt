-- ===== src/MergeGuard/Apply.antt =====
-- The objection on the board: `applyTrip` of hub/src/merge-guard.ts, over the writes of
-- hub/src/ticketwrite.ts.
pub mod Posts
use dev_loop.Common.{String, Bool, ◌&&◌, Option, none, some, List, ◌==◌, any, if◌then◌else◌}
use dev_loop.Store.{Ticket, Comment, in_progress, todo, same_state, Db, find_ticket}
use dev_loop.Ticket.Env.{Env}
use dev_loop.Ticket.Gates.States.{TicketFields}
use dev_loop.Ticket.Update.{Write, ok, err, thrown, fields_of, update_ticket_row}
use dev_loop.Ticket.Comments.{add_comment}
use dev_loop.MergeGuard.Results.{Board, no_path, no_file, unreadable, opened}
use dev_loop.MergeGuard.Tickets.{find_by_id}

-- Which axis tripped.
pub data TripAxis : Type 0 where
  on_forge on_board on_checks : TripAxis

pub data Action : Type 0 where
  wrote already_present skipped_no_db skipped_no_ticket skipped_merged : Action

-- `MergeGuardApplyResult`, with the board after it; `failed_write` is an exception of the write layer.
pub data Applied : Type 0 where
  applied : Action → Option String → Board → Applied
  failed_write : Applied

-- `SELECT id FROM comments WHERE ticket_id=? AND body=?`.
unfoldable pub is_posted : String → String → Comment → Bool
is_posted id body c = c.ticket_id == id && c.body == body

unfoldable pub has_comment : Db → String → String → Bool
unfolding is_posted
has_comment db id body = any (is_posted id body) db.comments

-- The store after a write whose refusal nobody reads.
unfoldable pub store_after : Db → Write → Option Db
store_after db (ok db2 id) = some db2
store_after db (err status r) = some db
store_after db (thrown r) = none

unfoldable pub post : Env → Db → String → String → String → String → Option Db
unfolding has_comment store_after
post env db project_id actor id body =
    if has_comment db id body
    then some db
    else store_after db (add_comment env db project_id actor id body)

unfoldable pub route_row : Env → Db → String → String → String → Option Ticket → Option Db
unfolding store_after
route_row env db project_id actor id none = some db
route_row env db project_id actor id (some t) =
    if same_state t.state in_progress
    then some db
    else store_after db (
        update_ticket_row env db project_id actor id t.state
          (record (fields_of t) { state = todo }))

-- Back to Todo after an objection of the forge.
unfoldable pub route : Env → TripAxis → String → String → String → Db → Option Db
unfolding route_row
route env on_forge project_id actor id db =
    route_row env db project_id actor id (find_ticket db project_id id)
route env _ project_id actor id db = some db

abbrev pub route_after : Env → TripAxis → String → String → String → Option Db → Option Db
unfolding route
route_after env axis project_id actor id none = none
route_after env axis project_id actor id (some db) = route env axis project_id actor id db

unfoldable pub applied_with : Action → String → Option Db → Applied
applied_with action body none = failed_write
applied_with action body (some db) = applied action (some body) (opened db)

unfoldable pub apply_row : Env → TripAxis → String → String → String → Db → Option Ticket → Applied
unfolding applied_with post route has_comment
apply_row env axis actor id body db none = applied skipped_no_ticket none (opened db)
apply_row env axis actor id body db (some t) =
    applied_with (if has_comment db id body then already_present else wrote) body
      (route_after env axis t.project_id actor id (post env db t.project_id actor id body))

-- `applyTrip`, given the text of the objection.
unfoldable pub apply_trip : Env → TripAxis → String → String → String → Board → Applied
unfolding apply_row find_by_id
apply_trip env axis actor id body (opened db) =
    apply_row env axis actor id body db (find_by_id db id)
apply_trip env axis actor id body board = applied skipped_no_db none board
