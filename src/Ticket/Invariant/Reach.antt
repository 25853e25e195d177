-- ===== src/Ticket/Invariant/Reach.antt =====
-- The stores that sequences of writes reach, by a clock that does not run backwards:
-- hub/src/ticketwrite.ts.
use dev_loop.Common.{
  ℕ, ◌≤◌, String, Option, none, some, List, [], ◌∷◌, ◌≡◌, refl, arith, All-append, Bool-cases, inl,
  inr,
}
use dev_loop.Store.{
  Ticket, Comment, Db, State, is_row, find_ticket, update_ticket, log_event, actor_exists,
}
use dev_loop.Bail.{BailShape, parse_bail_shape}
use dev_loop.Ticket.Env.{Env}
use dev_loop.Ticket.Gates.States.{TicketFields}
use dev_loop.Ticket.Update.{ok, update_ticket_row}
use dev_loop.Ticket.Update.Accepted.{update_commits}
use dev_loop.Ticket.Insert.{NewTicket, insert_ticket}
use dev_loop.Ticket.Rulings.{ParsedRuling}
use dev_loop.Ticket.Comments.{
  insert_comment, project_shape, shape_row, new_comment, record_ruling, record_ruling_on,
  clear_wait, waits,
}
use dev_loop.Ticket.Invariant.{BoardOk, All-update_rows}
use dev_loop.Ticket.Invariant.Ordering.{NotAfter}
use dev_loop.Ticket.Invariant.Keys.{Unique, Unique-update_rows, Unique-append, found-one_project}
use dev_loop.Ticket.Invariant.Writes.{update_ticket_row-BoardOk, commit-SameTables, row_after}
use dev_loop.Ticket.Invariant.Inserts.{insert_ticket-BoardOk, insert_ticket-row}
use dev_loop.Ticket.Invariant.Commenting.{insert_comment-BoardOk, shape_row-rest}

-- `Reach time db`: writes up to `time` lead from a store without tickets and comments to `db`.
pub data Reach : ℕ → Db → Type 0 where
  start : {time : ℕ} {db : Db} → db.tickets ≡ [] → db.comments ≡ [] → Reach time db
  updated :
      {time : ℕ} {db db' : Db} {id' : String} (env : Env) (project_id actor id : String)
      (from : State) (next : TicketFields)
      → Reach time db
      → time ≤ env.now
      → update_ticket_row env db project_id actor id from next ≡ ok db' id'
      → Reach env.now db'
  inserted :
      {time : ℕ} {db db' : Db} {id' : String} (env : Env) (project_id actor : String)
      (f : NewTicket) (fields : List (String × String))
      → Reach time db
      → time ≤ env.now
      → insert_ticket env db project_id actor f fields ≡ ok db' id'
      → Reach env.now db'
  commented :
      {time : ℕ} {db : Db} (env : Env) (project_id actor id body : String) (t : Ticket)
      → Reach time db
      → time ≤ env.now
      → find_ticket db project_id id ≡ some t
      → Reach env.now (insert_comment env db project_id actor id body)
  ruled :
      {time : ℕ} {db : Db} (env : Env) (project_id actor id : String) (ruling : ParsedRuling)
      → Reach time db
      → time ≤ env.now
      → Reach env.now (record_ruling env db project_id actor id ruling)

-- The board's form, the key of the tickets, and no comment from the future.
pub record Good (time : ℕ) (db : Db) : Type 0 where
  pub board : BoardOk db
  pub unique : Unique db.tickets
  pub clock : NotAfter time db.comments

later : (a b : ℕ) (cs : List Comment) → a ≤ b → NotAfter a cs → NotAfter b cs
later a b [] le h = tt
later a b (c ∷ cs) le h = (ground (arith, h.0), later a b cs le h.1)

updated-Good :
    (env : Env) (db : Db) (project_id actor id : String) (from : State) (next : TicketFields)
    {db' : Db} {id' : String} (time : ℕ)
    → time ≤ env.now
    → update_ticket_row env db project_id actor id from next ≡ ok db' id'
    → Good time db
    → Good env.now db'
unfolding update_ticket
updated-Good env db project_id actor id from next {db'} {id'} time le accepted g =
    let (n, e) = update_commits env db project_id actor id from next accepted in
    let same = commit-SameTables env db project_id actor id from next in
    record {
      board = update_ticket_row-BoardOk env db project_id actor id from next accepted g.board;
      unique =
          rw (← e, same.tickets)
            (Unique-update_rows (is_row project_id id)
              (row_after env db project_id actor id from next) db.tickets (λ t. refl) g.unique);
      clock = rw (← e, same.comments) (later time env.now db.comments le g.clock);
    }

inserted-Good :
    (env : Env) (db : Db) (project_id actor : String) (f : NewTicket)
    (fields : List (String × String)) {db' : Db} {id' : String} (time : ℕ)
    → time ≤ env.now
    → insert_ticket env db project_id actor f fields ≡ ok db' id'
    → Good time db
    → Good env.now db'
inserted-Good env db project_id actor f fields {db'} {id'} time le accepted g =
    let (free, row, i, tickets, comments) =
      insert_ticket-row env db project_id actor f fields accepted in
    record {
      board = insert_ticket-BoardOk env db project_id actor f fields accepted g.board;
      unique = rw tickets (Unique-append db.tickets row (rw i free) g.unique);
      clock = rw comments (later time env.now db.comments le g.clock);
    }

project_shape-Unique :
    (env : Env) (db : Db) (project_id id : String) (o : Option BailShape)
    → Unique db.tickets
    → Unique (project_shape env db project_id id o).tickets
unfolding project_shape update_ticket
project_shape-Unique env db project_id id none u = u
project_shape-Unique env db project_id id (some shape) u =
    Unique-update_rows (is_row project_id id) (shape_row shape env.now) db.tickets
      (λ t. (shape_row-rest shape env.now t).0) u

project_shape-comments :
    (env : Env) (db : Db) (project_id id : String) (o : Option BailShape)
    → (project_shape env db project_id id o).comments ≡ db.comments
unfolding project_shape update_ticket
project_shape-comments env db project_id id none = refl
project_shape-comments env db project_id id (some shape) = refl

commented-Good :
    (env : Env) (db : Db) (project_id actor id body : String) (t : Ticket) (time : ℕ)
    → time ≤ env.now
    → find_ticket db project_id id ≡ some t
    → Good time db
    → Good env.now (insert_comment env db project_id actor id body)
unfolding find_ticket
commented-Good env db project_id actor id body t time le found g =
    let clock = later time env.now db.comments le g.clock in
    let key = found-one_project project_id id db.tickets t found g.unique in
    record {
      board = insert_comment-BoardOk env db project_id actor id body clock key g.board;
      unique =
          unfold insert_comment log_event in
          project_shape-Unique env _ project_id id (parse_bail_shape body) g.unique;
      clock =
          unfold insert_comment log_event in
          rw (project_shape-comments env _ project_id id (parse_bail_shape body)) (
            All-append (λ (c : Comment). c.created_at ≤ env.now) db.comments
              (new_comment env actor id body ∷ []) clock (omega arith, tt));
    }

cleared-Good :
    (env : Env) (db : Db) (project_id id : String) (time : ℕ)
    → time ≤ env.now
    → Good time db
    → Good env.now (update_ticket db project_id id (clear_wait env.now))
unfolding update_ticket actor_exists
cleared-Good env db project_id id time le g = record {
  board =
      All-update_rows _ (is_row project_id id) (clear_wait env.now) db.tickets
        (λ t hit ok. record { fits = ok.fits; tiered = ok.tiered; settled = ok.settled }) g.board;
  unique =
      Unique-update_rows (is_row project_id id) (clear_wait env.now) db.tickets (λ t. refl)
        g.unique;
  clock = later time env.now db.comments le g.clock;
}

ruled-Good :
    (env : Env) (db : Db) (project_id actor id : String) (ruling : ParsedRuling) (o : Option Ticket)
    (time : ℕ)
    → time ≤ env.now
    → Good time db
    → Good env.now (record_ruling_on env db project_id actor id ruling o)
unfolding record_ruling_on log_event actor_exists
ruled-Good env db project_id actor id ruling none time le g = record {
  board = g.board;
  unique = g.unique;
  clock = later time env.now db.comments le g.clock;
}
ruled-Good env db project_id actor id ruling (some t) time le g = elim (Bool-cases (waits t)) [
  | inl yes_it ↦ rw yes_it (
      let c = cleared-Good env db project_id id time le g in
      record { board = c.board; unique = c.unique; clock = c.clock })
  | inr no_it ↦ rw no_it (record {
    board = g.board;
    unique = g.unique;
    clock = later time env.now db.comments le g.clock;
  })
]

-- In every store that writes reach: the bail labels of each ticket are the newest bail shape of its
-- comments while it is blocked and none otherwise, no sensitive ticket is a junior's where there is
-- a senior, a Todo ticket without assignee has no developer tier, no id stands in two rows, and no
-- comment is younger than the last write.
pub Reach-Good : (time : ℕ) (db : Db) → Reach time db → Good time db
unfolding record_ruling
Reach-Good time db (start t c) = rw (t, c) (record { board = tt; unique = tt; clock = tt })
Reach-Good _ _ (updated env project_id actor id from next r le accepted) =
    updated-Good env _ project_id actor id from next _ le accepted (Reach-Good _ _ r)
Reach-Good _ _ (inserted env project_id actor f fields r le accepted) =
    inserted-Good env _ project_id actor f fields _ le accepted (Reach-Good _ _ r)
Reach-Good _ _ (commented env project_id actor id body t r le found) =
    commented-Good env _ project_id actor id body t _ le found (Reach-Good _ _ r)
Reach-Good _ _ (ruled env project_id actor id ruling r le) =
    ruled-Good env _ project_id actor id ruling _ _ le (Reach-Good _ _ r)
