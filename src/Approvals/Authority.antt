-- ===== src/Approvals/Authority.antt =====
-- Which approvals authorise an action: hub/src/approvals.ts.
use dev_loop.Common.{
  ℕ, String, Bool, false, ◌&&◌, ◌||◌, Option, none, some, List, [], ◌∷◌, ◌≡◌, refl, ◌∙◌, ap, arith,
  eqb, any, filter, is_some, ◌or_else◌, if◌then◌else◌,
}
use dev_loop.Approvals.Keys.{ParseResult, legal, illegal, parse_action_key}
use dev_loop.Approvals.Ledger.{ApprovalRow, ApprovalState, granted, Ledger, derive_state}
use dev_loop.Approvals.Calls.{is_granted}
use dev_loop.Approvals.Consult.{
  in_scope, bears_key, candidates, last_where, has_state, ConsultOptions, judge, verdict_of,
  refusal, chosen, state_number, consult_approval,
}

-- A row that authorises: it bears the key, it is in scope, and it is granted now.
abbrev pub authorising : ℕ → String → Option (Option String) → ApprovalRow → Bool
authorising now key project_id row =
    bears_key key row && (in_scope project_id row && is_granted (derive_state now row))

abbrev pub authorised : ℕ → ConsultOptions → List ApprovalRow → ParseResult → Bool
authorised now opts rows (illegal code) = false
authorised now opts rows (legal parsed) = any (authorising now parsed.key opts.project_id) rows

is_some-or_else : (a b : Option ApprovalRow) → is_some (a or_else b) ≡ (is_some a || is_some b)
is_some-or_else none b = refl
is_some-or_else (some r) b = refl

-- The two tests of the state agree.
has_state-granted :
    (now : ℕ) (row : ApprovalRow) → has_state now granted row ≡ is_granted (derive_state now row)
has_state-granted now row = go (derive_state now row)
  where
    go : (s : ApprovalState) → eqb (state_number s) (state_number granted) ≡ is_granted s
    go s = ground arith

any-filter :
    (p q : ApprovalRow → Bool) (rows : List ApprovalRow)
    → any p (filter q rows) ≡ any (λ r. q r && p r) rows
any-filter p q [] = refl
any-filter p q (r ∷ rs) = ground (arith, any-filter p q rs)

any_same :
    (p q : ApprovalRow → Bool) (rows : List ApprovalRow)
    → ((r : ApprovalRow) → p r ≡ q r)
    → any p rows ≡ any q rows
any_same p q [] h = refl
any_same p q (r ∷ rs) h = ground (arith, any_same p q rs h, h r)

last_where-any :
    (p : ApprovalRow → Bool) (rows : List ApprovalRow) → is_some (last_where p rows) ≡ any p rows
unfolding last_where
last_where-any p [] = refl
last_where-any p (r ∷ rs) =
    is_some-or_else (last_where p rs) (if p r then some r else none)
    ∙ ground (arith, last_where-any p rs)

any-candidates :
    (now : ℕ) (key : String) (project_id : Option (Option String)) (rows : List ApprovalRow)
    → any (has_state now granted) (candidates key project_id rows)
      ≡ any (authorising now key project_id) rows
unfolding candidates
any-candidates now key project_id rows =
    any-filter (has_state now granted) (in_scope project_id) (filter (bears_key key) rows)
    ∙ any-filter (λ r. in_scope project_id r && has_state now granted r) (bears_key key) rows
    ∙ any_same _ _ rows
        (λ r. ap (λ b. bears_key key r && (in_scope project_id r && b)) (has_state-granted now r))

refusal-authorises :
    (now : ℕ) (key : String) (o : Option ApprovalRow) (recorded : Bool)
    → (refusal now key o recorded).authorises ≡ false
unfolding refusal
refusal-authorises now key none recorded = refl
refusal-authorises now key (some row) recorded = refl

verdict_of-authorises :
    (now : ℕ) (key : String) (rows : List ApprovalRow) (o : Option ApprovalRow) (recorded : Bool)
    → (verdict_of now key rows o recorded).authorises ≡ is_some o
unfolding verdict_of
verdict_of-authorises now key rows (some row) recorded = refl
verdict_of-authorises now key rows none recorded =
    refusal-authorises now key (chosen now rows) recorded

judge-authorises :
    (now : ℕ) (key : String) (opts : ConsultOptions) (rows : List ApprovalRow) (r : ParseResult)
    → (judge now key opts rows r).authorises ≡ authorised now opts rows r
unfolding judge
judge-authorises now key opts rows (illegal code) = unfold refusal in refl
judge-authorises now key opts rows (legal parsed) =
    verdict_of-authorises now parsed.key (candidates parsed.key opts.project_id rows)
      (last_where (has_state now granted) (candidates parsed.key opts.project_id rows))
      opts.record_attempt
    ∙ last_where-any (has_state now granted) (candidates parsed.key opts.project_id rows)
    ∙ any-candidates now parsed.key opts.project_id rows

-- A consultation authorises exactly where the key is legal and some row bears it, binds the project
-- and is granted at that instant.
pub consult_approval-authorises :
    (now : ℕ) (action_key : String) (opts : ConsultOptions) (l : Ledger)
    → (consult_approval now action_key opts l).1.authorises
      ≡ authorised now opts l.rows (parse_action_key action_key)
unfolding consult_approval
consult_approval-authorises now action_key opts l =
    judge-authorises now action_key opts l.rows (parse_action_key action_key)
