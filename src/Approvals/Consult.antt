-- ===== src/Approvals/Consult.antt =====
-- `consultApproval`: hub/src/approvals.ts.
use dev_loop.Common.{
  ℕ, String, Bool, true, false, not, ◌||◌, Option, none, some, List, [], ◌∷◌, ◌==◌, filter, eqb,
  if◌then◌else◌, get_or, is_some, ◌or_else◌,
}
use dev_loop.Approvals.Keys.{ParseResult, legal, illegal, parse_action_key}
use dev_loop.Approvals.Ledger.{
  ApprovalRow, ApprovalState, Ledger, derive_state, note_event, requested, granted, revoked,
  discharged, expired, attempt,
}

-- What a consultation asks besides the key: the outer option is whether a project is given.
pub record ConsultOptions : Type 0 where
  pub project_id : Option (Option String)
  pub actor : Option String
  pub ticket_id : Option String
  pub record_attempt : Bool

-- `ApprovalVerdict`, without the sentence of its reason.
pub record Verdict : Type 0 where
  pub authorises : Bool
  pub key : String
  pub approval : Option ApprovalRow
  pub state : Option ApprovalState
  pub attempt_recorded : Bool

abbrev same_project : Option String → Option String → Bool
same_project none _ = false
same_project (some p) none = false
same_project (some p) (some q) = q == p

-- A row binds a project's consultation if it has no project or that one.
abbrev pub in_scope : Option (Option String) → ApprovalRow → Bool
in_scope none row = true
in_scope (some p) row = not (is_some row.project_id) || same_project p row.project_id

abbrev pub bears_key : String → ApprovalRow → Bool
bears_key key row = row.action_key == key

unfoldable pub candidates : String → Option (Option String) → List ApprovalRow → List ApprovalRow
candidates key project_id rows = filter (in_scope project_id) (filter (bears_key key) rows)

-- `rows.filter(p).at(-1)`.
unfoldable pub last_where : (ApprovalRow → Bool) → List ApprovalRow → Option ApprovalRow
last_where p [] = none
last_where p (r ∷ rs) = last_where p rs or_else (if p r then some r else none)

abbrev pub state_number : ApprovalState → ℕ
state_number requested = 0
state_number granted = 1
state_number revoked = 2
state_number discharged = 3
state_number expired = 4

abbrev pub has_state : ℕ → ApprovalState → ApprovalRow → Bool
has_state now s row = eqb (state_number (derive_state now row)) (state_number s)

-- The row that gives the reason: by `REASON_PRECEDENCE`, and the last of its kind.
unfoldable pub chosen : ℕ → List ApprovalRow → Option ApprovalRow
unfolding last_where
chosen now rows =
    last_where (has_state now expired) rows
    or_else last_where (has_state now revoked) rows
    or_else last_where (has_state now discharged) rows
    or_else last_where (has_state now requested) rows

unfoldable pub refusal : ℕ → String → Option ApprovalRow → Bool → Verdict
refusal now key none recorded = record {
  authorises = false;
  key = key;
  approval = none;
  state = none;
  attempt_recorded = recorded;
}
refusal now key (some row) recorded = record {
  authorises = false;
  key = key;
  approval = some row;
  state = some (derive_state now row);
  attempt_recorded = recorded;
}

unfoldable pub verdict_of : ℕ → String → List ApprovalRow → Option ApprovalRow → Bool → Verdict
unfolding refusal chosen
verdict_of now key rows (some row) recorded = record {
  authorises = true;
  key = key;
  approval = some row;
  state = some granted;
  attempt_recorded = recorded;
}
verdict_of now key rows none recorded = refusal now key (chosen now rows) recorded

unfoldable pub judge : ℕ → String → ConsultOptions → List ApprovalRow → ParseResult → Verdict
unfolding verdict_of candidates last_where
judge now action_key opts rows (illegal code) = refusal now action_key none opts.record_attempt
judge now action_key opts rows (legal parsed) =
    let rows' = candidates parsed.key opts.project_id rows in
    verdict_of now parsed.key rows' (last_where (has_state now granted) rows') opts.record_attempt

project_of : Option ApprovalRow → Option String
project_of none = none
project_of (some row) = row.project_id

ticket_of : Option ApprovalRow → Option String
ticket_of none = none
ticket_of (some row) = row.ticket_id

id_of : Option ApprovalRow → Option String
id_of none = none
id_of (some row) = some row.id

-- `consultApproval`: the ledger, which the attempt is logged in, and the verdict.
unfoldable pub consult_approval : ℕ → String → ConsultOptions → Ledger → Ledger × Verdict
unfolding judge note_event project_of ticket_of id_of
consult_approval now action_key opts l =
    let v = judge now action_key opts l.rows (parse_action_key action_key) in
    let event = attempt action_key (id_of v.approval) v.state v.authorises in
    let scope = get_or opts.project_id (project_of v.approval) in
    let logged =
      note_event scope (opts.ticket_id or_else ticket_of v.approval) (get_or opts.actor "unknown")
        event l in
    (if opts.record_attempt then logged else l, v)
