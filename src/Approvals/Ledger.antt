-- ===== src/Approvals/Ledger.antt =====
-- The rows of approvals, their states, and the statements on them: hub/src/approvals.ts.
use dev_loop.Common.{
  ℕ, String, Bool, false, not, Option, none, some, List, [], ◌∷◌, ◌++◌, ◌==◌, any, find, leb,
  if◌then◌else◌, get_or, is_some,
}
use dev_loop.Approvals.Keys.{ApprovalErrorCode, not_found}

-- A row of `approvals`.
pub record ApprovalRow : Type 0 where
  pub id : String
  pub project_id : Option String
  pub action_key : String
  pub requested_by : Option String
  pub requested_at : Option ℕ
  pub ticket_id : Option String
  pub grantor : Option String
  pub granted_at : Option ℕ
  pub expires_at : Option ℕ
  pub revoked_by : Option String
  pub revoked_at : Option ℕ
  pub discharged_at : Option ℕ
  pub note : Option String

pub data ApprovalState : Type 0 where
  requested granted revoked discharged expired : ApprovalState

-- The kinds of the ledger's events with their data.
pub data ApprovalEvent : Type 0 where
  request : (approval_id action_key : String) → ApprovalEvent
  grant :
      (approval_id action_key : String) (expires_at : Option ℕ) (from_request : Bool)
      → ApprovalEvent
  revoke : (approval_id action_key : String) (prior : ApprovalState) → ApprovalEvent
  discharge : (approval_id action_key : String) → ApprovalEvent
  attempt :
      (action_key : String) (approval_id : Option String) (state : Option ApprovalState)
      (authorises : Bool)
      → ApprovalEvent

pub record Logged : Type 0 where
  pub project_id : String
  pub ticket_id : Option String
  pub actor : String
  pub content : ApprovalEvent

pub record Ledger : Type 0 where
  pub rows : List ApprovalRow
  pub log : List Logged

-- An answer: the ledger after the call and its row, an error, or the store's refusal of a second row
-- with one id.
pub data Answer : Type 0 where
  answer : Ledger → ApprovalRow → Answer
  failed : ApprovalErrorCode → Answer
  duplicate_id : Answer

abbrev pub has_ended : ℕ → Option ℕ → Bool
has_ended now none = false
has_ended now (some at) = leb at now

-- `deriveState`.
unfoldable pub derive_state : ℕ → ApprovalRow → ApprovalState
derive_state now row =
    if is_some row.revoked_at
    then revoked
    else if is_some row.discharged_at
    then discharged
    else if not (is_some row.granted_at)
    then requested
    else if has_ended now row.expires_at
    then expired
    else granted

abbrev pub ledger_scope : Option String → String
ledger_scope p = get_or p "workspace"

abbrev pub row_id : String → ApprovalRow → Bool
row_id id row = row.id == id

-- `getRow`.
unfoldable pub get_row : String → Ledger → Option ApprovalRow
get_row id l = find (row_id id) l.rows

-- `UPDATE approvals SET … WHERE id=?`.
unfoldable pub set_row : String → (ApprovalRow → ApprovalRow) → List ApprovalRow → List ApprovalRow
set_row id f [] = []
set_row id f (r ∷ rs) = (if row_id id r then f r else r) ∷ set_row id f rs

unfoldable pub note_event : Option String → Option String → String → ApprovalEvent → Ledger → Ledger
note_event project_id ticket_id actor content l = record l {
  log =
      l.log
      ++ record {
        project_id = ledger_scope project_id;
        ticket_id = ticket_id;
        actor = actor;
        content = content;
      }
        ∷ [];
}

unfoldable pub reread_row : Option ApprovalRow → Ledger → Answer
reread_row none l = failed not_found
reread_row (some row) l = answer l row

-- `requireRow` behind a write.
unfoldable pub reread : String → Ledger → Answer
unfolding get_row reread_row
reread id l = reread_row (get_row id l) l

unfoldable pub insert_approval : ApprovalRow → String → ApprovalEvent → Ledger → Answer
unfolding note_event reread
insert_approval row actor event l =
    let written = record l { rows = l.rows ++ row ∷ [] } in
    if any (row_id row.id) l.rows
    then duplicate_id
    else reread row.id (note_event row.project_id row.ticket_id actor event written)

-- An update of a row that is there.
unfoldable pub update_approval :
    ApprovalRow → (ApprovalRow → ApprovalRow) → String → ApprovalEvent → Ledger → Answer
unfolding note_event set_row reread
update_approval row f actor event l =
    let written = record l { rows = set_row row.id f l.rows } in
    reread row.id (note_event row.project_id row.ticket_id actor event written)
