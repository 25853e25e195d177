-- ===== src/Ticket/Comments/Authors.antt =====
-- Who records a ruling, and what a comment does to the store: hub/src/ticketwrite.ts.
use dev_loop.Common.{
  String, true, Option, none, some, ◌≡◌, refl, sym, ◌∙◌, ap, ◌⊎◌, inl, inr, eq_iff, arith,
  Bool-cases,
}
use dev_loop.Common.Text.{trim, is_empty}
use dev_loop.Store.{Verdict, Db, actor_is_human}
use dev_loop.Ticket.Env.{Env, Rejection, off, malformed_ruling, no_ruling_reason}
use dev_loop.Ticket.Gates.States.{human_blocked_mode_for}
use dev_loop.Ticket.Rulings.{
  ParsedRuling, Parsed, malformed, parsed, parse_ruling, is_ruling_shaped, of_parts, with_reason,
  ruling_parts,
}
use dev_loop.Ticket.Update.{ok}
use dev_loop.Ticket.Comments.{
  add_comment, add_allowed, policy_of, ruling_comment_policy, may_rule, record_ruling,
  insert_comment,
}

-- A parse that is no plain comment.
abbrev IsRuling : Parsed → Type 0
IsRuling p = ((r : Rejection) × (p ≡ malformed r)) ⊎ ((ruling : ParsedRuling) × (p ≡ parsed ruling))

of_parts-IsRuling : (o : Option (Verdict × String)) → IsRuling (of_parts o)
unfolding of_parts with_reason
of_parts-IsRuling none = inl (malformed_ruling, refl)
of_parts-IsRuling (some (v, rest)) = elim (Bool-cases (is_empty (trim rest))) [
  | inl yes_it ↦ rw yes_it (inl (no_ruling_reason, refl))
  | inr no_it ↦ rw no_it (inr (record { verdict = v; reason = trim rest }, refl))
]

shaped_parse : (body : String) → is_ruling_shaped body ≡ true → IsRuling (parse_ruling body)
unfolding parse_ruling
shaped_parse body h = rw h (of_parts-IsRuling (ruling_parts body))

-- What the policy lets through of a parsed ruling.
allowed_ruling :
    (env : Env) (db : Db) (project_id actor id body : String) (ruling : ParsedRuling) {db' : Db}
    {id' : String}
    → add_allowed env db project_id actor id body
        (policy_of env db project_id actor (parsed ruling))
      ≡ ok db' id'
    → (may_rule env db project_id actor ≡ true)
      × (db'
          ≡ record_ruling env
              (insert_comment env db project_id actor id body)
              project_id
              actor
              id
              ruling)
unfolding add_allowed policy_of
allowed_ruling env db project_id actor id body ruling h = ground arith

accepted_comment :
    (env : Env) (db : Db) (project_id actor id body : String) (db' : Db) (id' : String)
    → add_comment env db project_id actor id body ≡ ok db' id'
    → add_allowed env db project_id actor id body
        (policy_of env db project_id actor (parse_ruling body))
      ≡ ok db' id'
unfolding add_comment ruling_comment_policy
accepted_comment env db project_id actor id body db' id' h = ground arith

may_rule-cases :
    (env : Env) (db : Db) (project_id actor : String)
    → may_rule env db project_id actor ≡ true
    → (actor_is_human db actor ≡ true)
      ⊎ (actor ≡ "pm") × (human_blocked_mode_for env db project_id ≡ off)
unfolding may_rule
may_rule-cases env db project_id actor h = ground (arith, eq_iff actor "pm")

-- An accepted comment that looks like a ruling is by a human, or by `pm` in a project where nothing
-- waits for a human; it parses, and the ruling is recorded behind the comment.
pub ruling_by_owner :
    (env : Env) (db : Db) (project_id actor id body : String) (db' : Db) (id' : String)
    → add_comment env db project_id actor id body ≡ ok db' id'
    → is_ruling_shaped body ≡ true
    → ((actor_is_human db actor ≡ true)
        ⊎ (actor ≡ "pm") × (human_blocked_mode_for env db project_id ≡ off))
      × (ruling : ParsedRuling) × (parse_ruling body ≡ parsed ruling)
      × (db'
          ≡ record_ruling env
              (insert_comment env db project_id actor id body)
              project_id
              actor
              id
              ruling)
ruling_by_owner env db project_id actor id body db' id' h shaped =
    let commented = accepted_comment env db project_id actor id body db' id' h in
    let at = λ (p : Parsed).
      add_allowed env db project_id actor id body (policy_of env db project_id actor p) in
    elim (shaped_parse body shaped) [
      | inl (r, p) ↦
          absurd (unfold add_allowed policy_of in ground (arith, sym (ap at p) ∙ commented))
      | inr (ruling, p) ↦
          let (may, e) =
            allowed_ruling env db project_id actor id body ruling (sym (ap at p) ∙ commented) in
          (may_rule-cases env db project_id actor may, ruling, p, e)
    ]
