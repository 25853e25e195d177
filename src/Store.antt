-- ===== src/Store.antt =====
-- The hub's store: hub/src/db.ts. A row of each table is a record, a table is the list of its rows
-- in the order of their insertion, and an SQL statement is a function on the tables.
pub mod Laws
use dev_loop.Common.{
  ℕ, suc, ◌+◌, String, Bool, true, false, ◌&&◌, Option, none, some, List, [], ◌∷◌, ◌++◌, map, ◌==◌,
  any, filter, find, eqb, leb, if◌then◌else◌, is_some,
}
use dev_loop.Common.Text.{is_empty, print_ℕ, append}
use dev_loop.Bail.{BailShape}

pub data State : Type 0 where
  backlog todo in_progress in_review human_blocked done canceled duplicate : State

-- The text of a state, as the column's CHECK lists it.
unfoldable pub state_name : State → String
state_name backlog = "Backlog"
state_name todo = "Todo"
state_name in_progress = "In Progress"
state_name in_review = "In Review"
state_name human_blocked = "Human-Blocked"
state_name done = "Done"
state_name canceled = "Canceled"
state_name duplicate = "Duplicate"

-- `STATES`.
unfoldable pub states : List State
states = backlog ∷ todo ∷ in_progress ∷ in_review ∷ human_blocked ∷ done ∷ canceled ∷ duplicate ∷ []

-- The member of `STATES` that a text spells.
unfoldable pub state_of_name : String → Option State
unfolding states state_name
state_of_name s = find (λ st. state_name st == s) states

abbrev pub state_rank : State → ℕ
state_rank backlog = 0
state_rank todo = 1
state_rank in_progress = 2
state_rank in_review = 3
state_rank human_blocked = 4
state_rank done = 5
state_rank canceled = 6
state_rank duplicate = 7

-- `a === b` of two states.
abbrev pub same_state : State → State → Bool
same_state a b = eqb (state_rank a) (state_rank b)

pub data WaitingOn : Type 0 where
  human_decision human_action external : WaitingOn

-- A row of `tickets`. The columns `labels` and `related_to` hold JSON arrays of texts.
pub record Ticket : Type 0 where
  pub id : String
  pub project_id : String
  pub title : String
  pub description : String
  pub type : String
  pub state : State
  pub assignee : Option String
  pub priority : ℕ
  pub labels : List String
  pub duplicate_of : Option String
  pub related_to : List String
  pub waiting_on : Option WaitingOn
  pub created_by : String
  pub created_at : ℕ
  pub updated_at : ℕ

pub record Comment : Type 0 where
  pub id : String
  pub ticket_id : String
  pub author : String
  pub body : String
  pub created_at : ℕ

pub data ActorKind : Type 0 where
  agent human : ActorKind

pub record Actor : Type 0 where
  pub handle : String
  pub kind : ActorKind
  pub active : Bool

pub record Project : Type 0 where
  pub id : String
  pub key : String
  pub ticket_prefix : String
  pub ticket_seq : ℕ
  pub require_deploy_before_review : Bool
  pub deploy_repos : List String
  pub has_deploy : Bool

pub data Verdict : Type 0 where
  approve reject defer : Verdict

-- The kind of an event with its data.
pub data EventData : Type 0 where
  issue_create : (fields : List (String × String)) → EventData
  issue_transition : (from to : State) (assignee : Option String) → EventData
  issue_update : EventData
  issue_retier : (from to : String) → EventData
  issue_restore : (to : String) → EventData
  issue_ruling : (ruling : Verdict) (state : Option State) (cleared : Option WaitingOn) → EventData
  comment_add : EventData

pub record Event : Type 0 where
  pub project_id : String
  pub ticket_id : String
  pub actor : String
  pub content : EventData
  pub fire_id : Option String
  pub created_at : ℕ

pub record Db : Type 0 where
  pub tickets : List Ticket
  pub comments : List Comment
  pub events : List Event
  pub actors : List Actor
  pub projects : List Project

-- `WHERE id=? AND project_id=?` over the tickets.
abbrev pub is_row : String → String → Ticket → Bool
is_row project_id id t = t.id == id && t.project_id == project_id

unfoldable pub find_ticket : Db → String → String → Option Ticket
find_ticket db project_id id = find (is_row project_id id) db.tickets

-- `UPDATE tickets SET … WHERE id=? AND project_id=?`.
unfoldable pub update_rows : (Ticket → Bool) → (Ticket → Ticket) → List Ticket → List Ticket
update_rows p f [] = []
update_rows p f (t ∷ ts) = (if p t then f t else t) ∷ update_rows p f ts

unfoldable pub update_ticket : Db → String → String → (Ticket → Ticket) → Db
unfolding update_rows
update_ticket db project_id id f = record db {
  tickets = update_rows (is_row project_id id) f db.tickets;
}

unfoldable pub actor_exists : Db → String → Bool
actor_exists db handle = any (λ a. a.handle == handle && a.active) db.actors

abbrev is_human : ActorKind → Bool
is_human agent = false
is_human human = true

unfoldable pub actor_is_human : Db → String → Bool
actor_is_human db handle = any (λ a. a.handle == handle && a.active && is_human a.kind) db.actors

unfoldable pub find_project : Db → String → Option Project
find_project db project_id = find (λ p. p.id == project_id) db.projects

bump_seq : String → List Project → List Project
bump_seq project_id [] = []
bump_seq project_id (p ∷ ps) =
    (if p.id == project_id then record p { ticket_seq = p.ticket_seq + 1 } else p)
    ∷ bump_seq project_id ps

-- The next id of a project, with the store whose counter has moved. `none` is the throw on a
-- project that is not there.
unfoldable pub next_ticket_id : Db → String → Option (String × Db)
unfolding find_project bump_seq
next_ticket_id db project_id = elim (find_project db project_id) [
  | none ↦ none
  | some p ↦ some (
    append p.ticket_prefix (append "-" (print_ℕ (p.ticket_seq + 1))),
    record db { projects = bump_seq project_id db.projects },
  )
]

-- What a request and its process say of the fire: the request's own entry, if there is a request,
-- and the variable DEVLOOP_FIRE_ID.
pub record Fire : Type 0 where
  pub stored : Option (Option String)
  pub env : Option String

abbrev nonempty : Option String → Option String
nonempty none = none
nonempty (some s) = if is_empty s then none else some s

unfoldable pub fire_id : Fire → Option String
fire_id f = elim f.stored [ none ↦ nonempty f.env | some s ↦ nonempty s ]

unfoldable pub log_event : Fire → ℕ → Db → String → String → String → EventData → Db
unfolding fire_id
log_event fire now db project_id ticket_id actor content = record db {
  events =
      db.events
      ++ record {
        project_id = project_id;
        ticket_id = ticket_id;
        actor = actor;
        content = content;
        fire_id = fire_id fire;
        created_at = now;
      }
        ∷ [];
}
