-- ===== src/Approvals/Lifecycle/Closed.antt =====
-- A closed approval stays as it is: hub/src/approvals.ts.
use dev_loop.Common.{
  ℕ, String, true, false, Option, none, some, ◌≡◌, refl, sym, ◌∙◌, ap, ◌==◌, eq_iff, arith, find,
  Bool-cases, inl, inr, ◌⊎◌,
}
use dev_loop.Approvals.Keys.{
  ParsedActionKey, ParseResult, legal, illegal, parse_action_key, Expiry, until, no_expiry,
  resolve_expiry,
}
use dev_loop.Approvals.Ledger.{
  ApprovalRow, ApprovalEvent, Ledger, answer, derive_state, row_id, get_row, note_event,
  insert_approval, update_approval,
}
use dev_loop.Approvals.Calls.{
  is_granted, is_requested, request_parsed, grant_request_parsed, grant_new_parsed, revoke_found,
  discharge_found, RequestInput, request_approval, GrantInput, grant_approval, grant_by,
  grant_found, grant_request, grant_request_until, grant_new, grant_new_until, grant_row,
  revoke_approval, revoke_row, discharge_approval, discharge_row,
}
use dev_loop.Approvals.Consult.{ConsultOptions, consult_approval}
use dev_loop.Approvals.Lifecycle.Rows.{
  is_closed, closed-derive_state, insert-keeps, found_id, update-keeps, guarded,
}

-- One call on the ledger that answered, or a consultation.
pub data Step : Ledger → Ledger → Type 0 where
  requesting :
      {l l' : Ledger} {r : ApprovalRow} (at : ℕ) (id : String) (inp : RequestInput)
      → request_approval at id inp l ≡ answer l' r
      → Step l l'
  granting :
      {l l' : Ledger} {r : ApprovalRow} (at : ℕ) (id : String) (inp : GrantInput)
      → grant_approval at id inp l ≡ answer l' r
      → Step l l'
  revoking :
      {l l' : Ledger} {r : ApprovalRow} (at : ℕ) (id by : String) (note : Option String)
      → revoke_approval at id by note l ≡ answer l' r
      → Step l l'
  discharging :
      {l l' : Ledger} {r : ApprovalRow} (at : ℕ) (id actor : String) (note : Option String)
      → discharge_approval at id actor note l ≡ answer l' r
      → Step l l'
  consulting :
      {l : Ledger} (now : ℕ) (key : String) (opts : ConsultOptions)
      → Step l (consult_approval now key opts l).0

module _ (id : String) (row : ApprovalRow) (l : Ledger) (found : get_row id l ≡ some row)
    (closed : is_closed row ≡ true) where
  -- A row that is open now is not the closed one.
  other_row :
      (other_id : String) (other : ApprovalRow) (at : ℕ)
      → get_row other_id l ≡ some other
      → (is_requested (derive_state at other) ≡ true) ⊎ (is_granted (derive_state at other) ≡ true)
      → (other.id == id) ≡ false
  unfolding get_row
  other_row other_id other at h o = elim (Bool-cases (other.id == id)) [
    | inr differs ↦ differs
    | inl same ↦
        let e : other_id ≡ id =
          sym (found_id other_id l.rows other h) ∙ (eq_iff other.id id).0 same in
        let r : some other ≡ some row = sym h ∙ ap (λ k. find (row_id k) l.rows) e ∙ found in
        let c = closed-derive_state at row closed in absurd (ground (arith, r, c))
  ]

  updated_other :
      (other_id : String) (other : ApprovalRow) (at : ℕ) (f : ApprovalRow → ApprovalRow)
      (actor : String) (event : ApprovalEvent) (l' : Ledger) (r : ApprovalRow)
      → ((x : ApprovalRow) → (f x).id ≡ x.id)
      → get_row other_id l ≡ some other
      → (is_requested (derive_state at other) ≡ true) ⊎ (is_granted (derive_state at other) ≡ true)
      → update_approval other f actor event l ≡ answer l' r
      → get_row id l' ≡ some row
  updated_other other_id other at f actor event l' r k h o e =
      update-keeps id row other f actor event l l' r k (other_row other_id other at h o) found e

  inserted :
      (new : ApprovalRow) (actor : String) (event : ApprovalEvent) (l' : Ledger) (r : ApprovalRow)
      → insert_approval new actor event l ≡ answer l' r
      → get_row id l' ≡ some row
  inserted new actor event l' r e = insert-keeps id row new actor event l l' r found e

  requested_keeps :
      (at : ℕ) (new_id : String) (inp : RequestInput) (p : ParseResult) (l' : Ledger)
      (r : ApprovalRow)
      → request_parsed at new_id inp p l ≡ answer l' r
      → get_row id l' ≡ some row
  unfolding request_parsed
  requested_keeps at new_id inp (illegal code) l' r e = absurd (cc)
  requested_keeps at new_id inp (legal parsed) l' r e = inserted _ _ _ l' r e

  new_until_keeps :
      (at : ℕ) (new_id : String) (inp : GrantInput) (parsed : ParsedActionKey) (x : Expiry)
      (l' : Ledger) (r : ApprovalRow)
      → grant_new_until at new_id inp parsed x l ≡ answer l' r
      → get_row id l' ≡ some row
  unfolding grant_new_until
  new_until_keeps at new_id inp parsed (no_expiry code) l' r e = absurd (cc)
  new_until_keeps at new_id inp parsed (until expires) l' r e = inserted _ _ _ l' r e

  granted_new_keeps :
      (at : ℕ) (new_id : String) (inp : GrantInput) (p : ParseResult) (l' : Ledger)
      (r : ApprovalRow)
      → grant_new_parsed at new_id inp p l ≡ answer l' r
      → get_row id l' ≡ some row
  unfolding grant_new_parsed
  granted_new_keeps at new_id inp (illegal code) l' r e = absurd (cc)
  granted_new_keeps at new_id inp (legal parsed) l' r e =
      new_until_keeps at new_id inp parsed (resolve_expiry inp.expires at) l' r e

  request_until_keeps :
      (at : ℕ) (other_id : String) (inp : GrantInput) (other : ApprovalRow)
      (parsed : ParsedActionKey) (x : Expiry) (l' : Ledger) (r : ApprovalRow)
      → get_row other_id l ≡ some other
      → is_requested (derive_state at other) ≡ true
      → grant_request_until at inp other parsed x l ≡ answer l' r
      → get_row id l' ≡ some row
  unfolding grant_request_until
  request_until_keeps at other_id inp other parsed (no_expiry code) l' r h o e = absurd (cc)
  request_until_keeps at other_id inp other parsed (until expires) l' r h o e =
      updated_other other_id other at (grant_row inp.grantor at expires inp.note) _ _ l' r
        (λ x. refl) h (inl o) e

  request_parsed_keeps :
      (at : ℕ) (other_id : String) (inp : GrantInput) (other : ApprovalRow) (p : ParseResult)
      (l' : Ledger) (r : ApprovalRow)
      → get_row other_id l ≡ some other
      → is_requested (derive_state at other) ≡ true
      → grant_request_parsed at inp other p l ≡ answer l' r
      → get_row id l' ≡ some row
  unfolding grant_request_parsed
  request_parsed_keeps at other_id inp other (illegal code) l' r h o e = absurd (cc)
  request_parsed_keeps at other_id inp other (legal parsed) l' r h o e =
      request_until_keeps at other_id inp other parsed (resolve_expiry inp.expires at) l' r h o e

  granted_found_keeps :
      (at : ℕ) (other_id : String) (inp : GrantInput) (o : Option ApprovalRow) (l' : Ledger)
      (r : ApprovalRow)
      → get_row other_id l ≡ o
      → grant_found at inp o l ≡ answer l' r
      → get_row id l' ≡ some row
  unfolding grant_found grant_request
  granted_found_keeps at other_id inp none l' r h e = absurd (cc)
  granted_found_keeps at other_id inp (some other) l' r h e =
      let (open_now, e') = guarded _ _ _ l' r e in
      request_parsed_keeps at other_id inp other (parse_action_key other.action_key) l' r h
        (ground arith) e'

  granted_keeps :
      (at : ℕ) (new_id : String) (inp : GrantInput) (o : Option String) (l' : Ledger)
      (r : ApprovalRow)
      → grant_by at new_id inp o l ≡ answer l' r
      → get_row id l' ≡ some row
  unfolding grant_by grant_new
  granted_keeps at new_id inp none l' r e = granted_new_keeps at new_id inp _ l' r e
  granted_keeps at new_id inp (some other_id) l' r e =
      let (_, e') = guarded _ _ _ l' r e in
      granted_found_keeps at other_id inp (get_row other_id l) l' r refl e'

  revoked_keeps :
      (at : ℕ) (other_id by : String) (remark : Option String) (o : Option ApprovalRow)
      (l' : Ledger) (r : ApprovalRow)
      → get_row other_id l ≡ o
      → revoke_found at by remark o l ≡ answer l' r
      → get_row id l' ≡ some row
  unfolding revoke_found
  revoked_keeps at other_id by remark none l' r h e = absurd (cc)
  revoked_keeps at other_id by remark (some other) l' r h e =
      let (open_now, e') = guarded _ _ _ l' r e in
      updated_other other_id other at (revoke_row by at remark) _ _ l' r (λ x. refl) h
        (ground arith) e'

  discharged_keeps :
      (at : ℕ) (other_id actor : String) (remark : Option String) (o : Option ApprovalRow)
      (l' : Ledger) (r : ApprovalRow)
      → get_row other_id l ≡ o
      → discharge_found at actor remark o l ≡ answer l' r
      → get_row id l' ≡ some row
  unfolding discharge_found
  discharged_keeps at other_id actor remark none l' r h e = absurd (cc)
  discharged_keeps at other_id actor remark (some other) l' r h e =
      let (open_now, e') = guarded _ _ _ l' r e in
      updated_other other_id other at (discharge_row at remark) _ _ l' r (λ x. refl) h
        (ground arith) e'

consulted_rows :
    (now : ℕ) (key : String) (opts : ConsultOptions) (l : Ledger)
    → (consult_approval now key opts l).0.rows ≡ l.rows
unfolding consult_approval note_event
consulted_rows now key opts l = ground arith

-- An approval that is revoked or discharged reads the same after any call.
get_row-Step :
    (id : String) (row : ApprovalRow) (l l' : Ledger)
    → get_row id l ≡ some row
    → is_closed row ≡ true
    → Step l l'
    → get_row id l' ≡ some row
unfolding request_approval grant_approval revoke_approval discharge_approval get_row
get_row-Step id row l l' h c (requesting at new_id inp e) =
    requested_keeps id row l h c at new_id inp _ l' _ e
get_row-Step id row l l' h c (granting at new_id inp e) =
    granted_keeps id row l h c at new_id inp _ l' _ e
get_row-Step id row l l' h c (revoking at other_id by remark e) =
    revoked_keeps id row l h c at other_id by remark _ l' _ refl e
get_row-Step id row l l' h c (discharging at other_id actor remark e) =
    discharged_keeps id row l h c at other_id actor remark _ l' _ refl e
get_row-Step id row l l' h c (consulting now key opts) =
    ap (find (row_id id)) (consulted_rows now key opts l) ∙ h

-- The calls on the ledger, one after the other.
pub data Later (l : Ledger) : Ledger → Type 0 where
  now_here : Later l l
  and_then : {l1 l2 : Ledger} → Later l l1 → Step l1 l2 → Later l l2

-- An approval that is revoked or discharged stays as it is, whatever calls follow, so its state never
-- authorises again.
pub closed_stays :
    (id : String) (row : ApprovalRow) (l l' : Ledger) (now : ℕ)
    → get_row id l ≡ some row
    → is_closed row ≡ true
    → Later l l'
    → (get_row id l' ≡ some row) × (is_granted (derive_state now row) ≡ false)
closed_stays id row l l' now h c now_here = (h, (closed-derive_state now row c).1)
closed_stays id row l l' now h c (and_then {l1} before step) = (
  get_row-Step id row l1 l' (closed_stays id row l l1 now h c before).0 c step,
  (closed-derive_state now row c).1,
)
