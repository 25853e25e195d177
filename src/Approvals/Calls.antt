-- ===== src/Approvals/Calls.antt =====
-- Request, grant, revocation and discharge: hub/src/approvals.ts.
use dev_loop.Common.{
  ℕ, String, Bool, true, false, not, ◌&&◌, Option, none, some, if◌then◌else◌, get_or, is_some,
  ◌or_else◌,
}
use dev_loop.Common.Text.{is_empty}
use dev_loop.Approvals.Keys.{
  ambiguous_grant, not_found, not_grantable, not_revocable, not_dischargeable, ParsedActionKey,
  ParseResult, legal, illegal, parse_action_key, Expiry, until, no_expiry, resolve_expiry,
}
use dev_loop.Approvals.Ledger.{
  ApprovalRow, ApprovalState, Ledger, Answer, derive_state, get_row, insert_approval,
  update_approval, requested, granted, request, grant, revoke, discharge, failed,
}

pub record RequestInput : Type 0 where
  pub project_id : Option String
  pub action_key : String
  pub requested_by : String
  pub ticket_id : Option String
  pub note : Option String

unfoldable pub request_parsed : ℕ → String → RequestInput → ParseResult → Ledger → Answer
unfolding insert_approval
request_parsed at id inp (illegal code) l = failed code
request_parsed at id inp (legal parsed) l =
    insert_approval
      (record {
        id = id;
        project_id = inp.project_id;
        action_key = parsed.key;
        requested_by = some inp.requested_by;
        requested_at = some at;
        ticket_id = inp.ticket_id;
        grantor = none;
        granted_at = none;
        expires_at = none;
        revoked_by = none;
        revoked_at = none;
        discharged_at = none;
        note = inp.note;
      })
      inp.requested_by (request id parsed.key) l

-- `requestApproval`, with the clock and the new id.
unfoldable pub request_approval : ℕ → String → RequestInput → Ledger → Answer
unfolding request_parsed
request_approval at id inp l = request_parsed at id inp (parse_action_key inp.action_key) l

pub record GrantInput : Type 0 where
  pub project_id : Option String
  pub action_key : Option String
  pub request_id : Option String
  pub grantor : String
  pub expires : Option String
  pub ticket_id : Option String
  pub note : Option String

abbrev pub is_requested : ApprovalState → Bool
is_requested requested = true
is_requested _ = false

abbrev pub is_granted : ApprovalState → Bool
is_granted granted = true
is_granted _ = false

abbrev pub grant_row : String → ℕ → Option ℕ → Option String → ApprovalRow → ApprovalRow
grant_row grantor at expires note row = record row {
  grantor = some grantor;
  granted_at = some at;
  expires_at = expires;
  note = note or_else row.note;
}

unfoldable pub grant_request_until :
    ℕ → GrantInput → ApprovalRow → ParsedActionKey → Expiry → Ledger → Answer
unfolding update_approval
grant_request_until at inp row parsed (no_expiry code) l = failed code
grant_request_until at inp row parsed (until expires) l =
    update_approval row (grant_row inp.grantor at expires inp.note) inp.grantor
      (grant row.id parsed.key expires true) l

unfoldable pub grant_request_parsed : ℕ → GrantInput → ApprovalRow → ParseResult → Ledger → Answer
unfolding grant_request_until
grant_request_parsed at inp row (illegal code) l = failed code
grant_request_parsed at inp row (legal parsed) l =
    grant_request_until at inp row parsed (resolve_expiry inp.expires at) l

unfoldable pub grant_request : ℕ → GrantInput → ApprovalRow → Ledger → Answer
unfolding grant_request_parsed
grant_request at inp row l =
    if not (is_requested (derive_state at row))
    then failed not_grantable
    else grant_request_parsed at inp row (parse_action_key row.action_key) l

unfoldable pub grant_new_until :
    ℕ → String → GrantInput → ParsedActionKey → Expiry → Ledger → Answer
unfolding insert_approval
grant_new_until at id inp parsed (no_expiry code) l = failed code
grant_new_until at id inp parsed (until expires) l =
    insert_approval
      (record {
        id = id;
        project_id = inp.project_id;
        action_key = parsed.key;
        requested_by = none;
        requested_at = none;
        ticket_id = inp.ticket_id;
        grantor = some inp.grantor;
        granted_at = some at;
        expires_at = expires;
        revoked_by = none;
        revoked_at = none;
        discharged_at = none;
        note = inp.note;
      })
      inp.grantor (grant id parsed.key expires false) l

unfoldable pub grant_new_parsed : ℕ → String → GrantInput → ParseResult → Ledger → Answer
unfolding grant_new_until
grant_new_parsed at id inp (illegal code) l = failed code
grant_new_parsed at id inp (legal parsed) l =
    grant_new_until at id inp parsed (resolve_expiry inp.expires at) l

unfoldable pub grant_new : ℕ → String → GrantInput → Ledger → Answer
unfolding grant_new_parsed
grant_new at id inp l = grant_new_parsed at id inp (parse_action_key (get_or inp.action_key "")) l

unfoldable pub grant_found : ℕ → GrantInput → Option ApprovalRow → Ledger → Answer
unfolding grant_request
grant_found at inp none l = failed not_found
grant_found at inp (some row) l = grant_request at inp row l

-- A request id that JavaScript takes as true.
abbrev pub request_of : Option String → Option String
request_of none = none
request_of (some id) = if is_empty id then none else some id

unfoldable pub grant_by : ℕ → String → GrantInput → Option String → Ledger → Answer
unfolding grant_new grant_found
grant_by at id inp none l = grant_new at id inp l
grant_by at id inp (some request_id) l =
    if is_some inp.action_key
    then failed ambiguous_grant
    else grant_found at inp (get_row request_id l) l

-- `grantApproval`.
unfoldable pub grant_approval : ℕ → String → GrantInput → Ledger → Answer
unfolding grant_by
grant_approval at id inp l = grant_by at id inp (request_of inp.request_id) l

abbrev pub revoke_row : String → ℕ → Option String → ApprovalRow → ApprovalRow
revoke_row by at note row = record row {
  revoked_by = some by;
  revoked_at = some at;
  note = note or_else row.note;
}

unfoldable pub revoke_found : ℕ → String → Option String → Option ApprovalRow → Ledger → Answer
unfolding update_approval
revoke_found at by remark none l = failed not_found
revoke_found at by remark (some row) l =
    let state = derive_state at row in
    if not (is_requested state) && not (is_granted state)
    then failed not_revocable
    else update_approval row (revoke_row by at remark) by (revoke row.id row.action_key state) l

-- `revokeApproval`.
unfoldable pub revoke_approval : ℕ → String → String → Option String → Ledger → Answer
unfolding revoke_found
revoke_approval at id by note l = revoke_found at by note (get_row id l) l

abbrev pub discharge_row : ℕ → Option String → ApprovalRow → ApprovalRow
discharge_row at note row = record row { discharged_at = some at; note = note or_else row.note }

unfoldable pub discharge_found : ℕ → String → Option String → Option ApprovalRow → Ledger → Answer
unfolding update_approval
discharge_found at actor remark none l = failed not_found
discharge_found at actor remark (some row) l =
    if not (is_granted (derive_state at row))
    then failed not_dischargeable
    else update_approval row (discharge_row at remark) actor (discharge row.id row.action_key) l

-- `dischargeApproval`.
unfoldable pub discharge_approval : ℕ → String → String → Option String → Ledger → Answer
unfolding discharge_found
discharge_approval at id actor note l = discharge_found at actor note (get_row id l) l
