-- ===== src/Approvals/Examples.antt =====
-- The ledger of approvals at work.
use dev_loop.Common.{true, false, none, some, [], ◌∷◌, ◌≡◌, refl}
use dev_loop.Approvals.Keys.{
  parse_action_key, illegal, missing_component, parse_duration, resolve_expiry, until,
}
use dev_loop.Approvals.Ledger.{ApprovalRow, Ledger, get_row, derive_state}
use dev_loop.Approvals.Consult.{ConsultOptions, consult_approval}
use dev_loop.Approvals.Calls.{is_granted}
use dev_loop.Approvals.Authority.{authorised, consult_approval-authorises}
use dev_loop.Approvals.Lifecycle.Closed.{consulting, now_here, and_then, closed_stays}

capability_refused : parse_action_key "npm-publish:dev-loop" ≡ illegal missing_component
unfolding parse_action_key
capability_refused = refl

day_and_never :
    (parse_duration "2 d" ≡ some 172800000) × (resolve_expiry (some "never") 5 ≡ until none)
unfolding parse_duration resolve_expiry
day_and_never = (refl, refl)

abbrev granted_row : ApprovalRow
granted_row = record {
  id = "a1";
  project_id = none;
  action_key = "reopen:LOOP-9";
  requested_by = none;
  requested_at = none;
  ticket_id = none;
  grantor = some "operator";
  granted_at = some 10;
  expires_at = some 100;
  revoked_by = none;
  revoked_at = none;
  discharged_at = none;
  note = none;
}

abbrev ledger : Ledger
ledger = record { rows = granted_row ∷ []; log = [] }

abbrev anyone : ConsultOptions
anyone = record { project_id = none; actor = some "pm"; ticket_id = none; record_attempt = true }

consult_approval-authorises_example :
    (consult_approval 50 "reopen:LOOP-9" anyone ledger).1.authorises
    ≡ authorised 50 anyone ledger.rows (parse_action_key "reopen:LOOP-9")
consult_approval-authorises_example = consult_approval-authorises 50 "reopen:LOOP-9" anyone ledger

it_authorises : authorised 50 anyone ledger.rows (parse_action_key "reopen:LOOP-9") ≡ true
unfolding parse_action_key derive_state
it_authorises = refl

abbrev revoked_row : ApprovalRow
revoked_row = record granted_row { revoked_by = some "operator"; revoked_at = some 20 }

abbrev revoked_ledger : Ledger
revoked_ledger = record { rows = revoked_row ∷ []; log = [] }

found_row : get_row "a1" revoked_ledger ≡ some revoked_row
unfolding get_row
found_row = refl

closed_stays_example :
    (get_row "a1" (consult_approval 50 "reopen:LOOP-9" anyone revoked_ledger).0 ≡ some revoked_row)
    × (is_granted (derive_state 60 revoked_row) ≡ false)
closed_stays_example =
    closed_stays "a1" revoked_row revoked_ledger
      (consult_approval 50 "reopen:LOOP-9" anyone revoked_ledger).0 60 found_row refl
      (and_then now_here (consulting 50 "reopen:LOOP-9" anyone))
