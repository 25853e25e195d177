-- ===== src/Approvals/Lifecycle/Rows.antt =====
-- What a call leaves of a row that it does not address: hub/src/approvals.ts.
use dev_loop.Common.{
  ℕ, String, Bool, true, false, ◌||◌, Option, none, some, List, [], ◌∷◌, ◌++◌, ◌≡◌, refl, ◌∙◌, ap,
  ◌==◌, eq_iff, arith, any, find, is_some, if◌then◌else◌, Bool-cases, inl, inr,
}
use dev_loop.Approvals.Keys.{ApprovalErrorCode}
use dev_loop.Approvals.Ledger.{
  ApprovalRow, ApprovalEvent, Ledger, Answer, answer, failed, duplicate_id, derive_state, row_id,
  get_row, set_row, note_event, reread, reread_row, insert_approval, update_approval,
}
use dev_loop.Approvals.Calls.{is_granted, is_requested}

-- Revoked or discharged.
abbrev pub is_closed : ApprovalRow → Bool
is_closed row = is_some row.revoked_at || is_some row.discharged_at

pub closed-derive_state :
    (now : ℕ) (row : ApprovalRow)
    → is_closed row ≡ true
    → (is_requested (derive_state now row) ≡ false) × (is_granted (derive_state now row) ≡ false)
unfolding derive_state
closed-derive_state now row h = ground arith

reread_row-answer :
    (o : Option ApprovalRow) (l l' : Ledger) (r : ApprovalRow)
    → reread_row o l ≡ answer l' r
    → l' ≡ l
unfolding reread_row
reread_row-answer none l l' r h = absurd (cc)
reread_row-answer (some row) l l' r h = ground arith

reread-answer : (id : String) (l l' : Ledger) (r : ApprovalRow) → reread id l ≡ answer l' r → l' ≡ l
unfolding reread
reread-answer id l l' r h = reread_row-answer (get_row id l) l l' r h

find-append :
    (id : String) (rows : List ApprovalRow) (new row : ApprovalRow)
    → find (row_id id) rows ≡ some row
    → find (row_id id) (rows ++ new ∷ []) ≡ some row
find-append id [] new row h = absurd (cc)
find-append id (r ∷ rows) new row h = ground (arith, find-append id rows new row)

not_duplicate : (b : Bool) (y z : Answer) → b ≡ false → (if b then duplicate_id else y) ≡ z → y ≡ z
not_duplicate b y z h e = ground arith

pub insert-keeps :
    (id : String) (row new : ApprovalRow) (actor : String) (event : ApprovalEvent) (l l' : Ledger)
    (r : ApprovalRow)
    → get_row id l ≡ some row
    → insert_approval new actor event l ≡ answer l' r
    → get_row id l' ≡ some row
unfolding get_row insert_approval note_event
insert-keeps id row new actor event l l' r h e = elim (Bool-cases (any (row_id new.id) l.rows)) [
  | inl taken ↦ absurd (ground (arith))
  | inr free ↦
      let at : reread new.id _ ≡ answer l' r = not_duplicate _ _ _ free e in
      let same = reread-answer new.id _ l' r at in
      ap (λ (x : Ledger). find (row_id id) x.rows) same ∙ find-append id l.rows new row h
]

find-set_row :
    (id other : String) (f : ApprovalRow → ApprovalRow) (rows : List ApprovalRow)
    → ((x : ApprovalRow) → (f x).id ≡ x.id)
    → (other == id) ≡ false
    → find (row_id id) (set_row other f rows) ≡ find (row_id id) rows
unfolding set_row
find-set_row id other f [] k h = refl
find-set_row id other f (r ∷ rows) k h =
    ground (arith, find-set_row id other f rows k h, k r, eq_iff r.id other)

pub found_id :
    (id : String) (rows : List ApprovalRow) (row : ApprovalRow)
    → find (row_id id) rows ≡ some row
    → row.id ≡ id
found_id id [] row h = absurd (cc)
found_id id (r ∷ rows) row h = ground (arith, found_id id rows row, eq_iff r.id id)

-- An update of another row.
pub update-keeps :
    (id : String) (row other : ApprovalRow) (f : ApprovalRow → ApprovalRow) (actor : String)
    (event : ApprovalEvent) (l l' : Ledger) (r : ApprovalRow)
    → ((x : ApprovalRow) → (f x).id ≡ x.id)
    → (other.id == id) ≡ false
    → get_row id l ≡ some row
    → update_approval other f actor event l ≡ answer l' r
    → get_row id l' ≡ some row
unfolding get_row update_approval note_event
update-keeps id row other f actor event l l' r k d h e =
    let same = reread-answer other.id _ l' r e in
    ap (λ (x : Ledger). find (row_id id) x.rows) same ∙ find-set_row id other.id f l.rows k d ∙ h

pub guarded :
    (b : Bool) (code : ApprovalErrorCode) (y : Answer) (l' : Ledger) (r : ApprovalRow)
    → (if b then failed code else y) ≡ answer l' r
    → (b ≡ false) × (y ≡ answer l' r)
guarded b code y l' r e = ground arith
