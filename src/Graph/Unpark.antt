-- ===== src/Graph/Unpark.antt =====
-- When a parked ticket may be released: hub/src/dependency-graph.ts.
use dev_loop.Common.{
  String, true, false, Option, none, some, List, [], ◌∷◌, ◌≡◌, refl, ◌∙◌, ap, sym, ◌==◌, eq_iff,
  arith, map, filter, includes, is_nil, Bool-cases, inl, inr,
}
use dev_loop.Store.{Db, State}
use dev_loop.Ticket.Labels.{order_by_time, is_comment_of}
use dev_loop.Blockers.{parse_marker_lines, readable, live_blocker_ids, ReadComment}
use dev_loop.Blockers.Live.{last_says, live_by_last_marker}
use dev_loop.Graph.{
  blocker_state, blockers_of, dangling_of, all_terminal, integrity_of, is_terminal, is_missing,
  is_open_state, read_whole,
}

closed_state :
    (o : Option State)
    → is_missing o ≡ false
    → is_open_state o ≡ false
    → (s : State) × (o ≡ some s) × (is_terminal s ≡ true)
closed_state none m h = absurd (cc)
closed_state (some s) m h = (s, refl, ground arith)

resolved :
    (db : Db) (id : String) (ids : List String)
    → includes id ids ≡ true
    → all_terminal db ids ≡ true
    → is_nil (dangling_of db ids) ≡ true
    → (s : State) × (blocker_state db id ≡ some s) × (is_terminal s ≡ true)
unfolding all_terminal dangling_of
resolved db id [] h t d = absurd (cc)
resolved db id (x ∷ ids) h t d = elim (Bool-cases (x == id)) [
  | inl same ↦
      let at : blocker_state db id ≡ blocker_state db x =
        ap (blocker_state db) (sym ((eq_iff x id).0 same)) in
      rw at (closed_state (blocker_state db x) (ground arith) (ground arith))
  | inr other ↦ resolved db id ids (ground arith) (ground arith) (ground arith)
]

abbrev pub ordered_comments : Db → String → List ReadComment
ordered_comments db ticket_id =
    map read_whole (order_by_time (filter (is_comment_of ticket_id) db.comments))

-- A ticket that may be unparked has no open blocker: every id whose last marker in the ticket's
-- comments is a `Blocked-by:` is a ticket that exists, and it is terminal.
pub unpark_resolved :
    (db : Db) (ticket_id id : String)
    → (integrity_of db ticket_id).unpark_eligible ≡ true
    → last_says id (parse_marker_lines (readable (ordered_comments db ticket_id))) false ≡ true
    → (s : State) × (blocker_state db id ≡ some s) × (is_terminal s ≡ true)
unfolding integrity_of blockers_of
unpark_resolved db ticket_id id h named =
    let live = live_by_last_marker (ordered_comments db ticket_id) id ∙ named in
    resolved db id (live_blocker_ids (ordered_comments db ticket_id)).live live (ground arith)
      (ground arith)
