-- ===== src/Graph.antt =====
-- The integrity flags of blocked tickets in the dependency graph: hub/src/dependency-graph.ts.
pub mod Unpark
pub mod FanOut
pub mod Cycles
pub mod Report
pub mod Examples
use dev_loop.Common.{
  ℕ, String, Bool, true, false, not, ◌&&◌, ◌||◌, Option, none, some, List, [], ◌∷◌, ◌++◌, ◌==◌, map,
  filter, find, includes, dedup, sort_texts, is_nil, if◌then◌else◌,
}
use dev_loop.Store.{Db, Ticket, Comment, State, done, canceled, duplicate}
use dev_loop.Ticket.Labels.{order_by_time, is_comment_of}
use dev_loop.Blockers.{ReadComment, Blockers, live_blocker_ids}

-- `TERMINAL`.
abbrev pub is_terminal : State → Bool
is_terminal done = true
is_terminal canceled = true
is_terminal duplicate = true
is_terminal _ = false

abbrev pub read_whole : Comment → ReadComment
read_whole c = record { body = c.body; partial = false }

-- The blockers of a ticket by its comments in the order of time.
unfoldable pub blockers_of : Db → String → Blockers
blockers_of db id =
    live_blocker_ids (map read_whole (order_by_time (filter (is_comment_of id) db.comments)))

abbrev pub state_of_row : Option Ticket → Option State
state_of_row none = none
state_of_row (some t) = some t.state

-- `SELECT state FROM tickets WHERE id=?`, in any project; `none` does not exist.
unfoldable pub blocker_state : Db → String → Option State
blocker_state db id = state_of_row (find (λ t. t.id == id) db.tickets)

abbrev pub is_missing : Option State → Bool
is_missing none = true
is_missing (some s) = false

abbrev pub is_open_state : Option State → Bool
is_open_state none = false
is_open_state (some s) = not (is_terminal s)

-- `IntegrityFlags`, without the membership in a cycle.
pub record Integrity : Type 0 where
  pub ticket_id : String
  pub dangling : List String
  pub unpark_eligible : Bool
  pub had_read_failure : Bool
  pub no_edge : Bool

unfoldable pub dangling_of : Db → List String → List String
unfolding blocker_state
dangling_of db [] = []
dangling_of db (id ∷ ids) =
    let rest = dangling_of db ids in if is_missing (blocker_state db id) then id ∷ rest else rest

-- `allTerminal` behind the loop over the blockers.
unfoldable pub all_terminal : Db → List String → Bool
unfolding blocker_state
all_terminal db [] = true
all_terminal db (id ∷ ids) = not (is_open_state (blocker_state db id)) && all_terminal db ids

unfoldable pub integrity_of : Db → String → Integrity
unfolding blockers_of dangling_of all_terminal
integrity_of db id =
    let b = blockers_of db id in
    let dangling = dangling_of db b.live in
    let no_edge = is_nil b.live in
    record {
      ticket_id = id;
      dangling = dangling;
      unpark_eligible =
          not no_edge && all_terminal db b.live && is_nil dangling && not b.had_read_failure;
      had_read_failure = b.had_read_failure;
      no_edge = no_edge;
    }

-- The ids of the project's tickets that carry `blocked` and are not terminal.
blocked_among : String → List Ticket → List String
blocked_among project_id [] = []
blocked_among project_id (t ∷ ts) =
    let rest = blocked_among project_id ts in
    if t.project_id == project_id && not (is_terminal t.state) && includes "blocked" t.labels
    then t.id ∷ rest
    else rest

unfoldable pub blocked_tickets : Db → String → List String
unfolding blocked_among
blocked_tickets db project_id = sort_texts (blocked_among project_id db.tickets)

-- `integrity`, in the order of the tickets' ids.
unfoldable pub integrity : Db → String → List Integrity
unfolding integrity_of blocked_tickets
integrity db project_id = map (integrity_of db) (blocked_tickets db project_id)

dangling_in : List Integrity → List String
dangling_in [] = []
dangling_in (i ∷ is) = i.dangling ++ dangling_in is

-- `allDangling`.
unfoldable pub all_dangling : Db → String → List String
unfolding integrity dangling_in
all_dangling db project_id = sort_texts (dedup (dangling_in (integrity db project_id)))
