-- ===== src/Ticket/Rulings/Laws.antt =====
-- Rulings read back, and who may record one: hub/src/ticketwrite.ts.
use dev_loop.Common.{String, true, false, some, ◌≡◌, refl, ◌∙◌, ap}
use dev_loop.Common.Text.{is_space, skip, trim, is_empty, after_prefix, strip_prefix}
use dev_loop.Common.Trims.{skip-trim, trim-trim}
use dev_loop.Store.{Verdict, approve, reject, defer}
use dev_loop.Ticket.Rulings.{
  parsed, parse_ruling, ruling_body, ruling_parts, is_ruling_shaped, of_parts, with_reason,
  verdict_word,
}

ruling_parts-body :
    (v : Verdict) (reason : String)
    → ruling_parts (ruling_body v reason) ≡ some (v, skip is_space (trim reason))
unfolding ruling_parts ruling_body verdict_word skip strip_prefix trim
ruling_parts-body approve reason = refl
ruling_parts-body reject reason = refl
ruling_parts-body defer reason = refl

ruling_body-shaped :
    (v : Verdict) (reason : String) → is_ruling_shaped (ruling_body v reason) ≡ true
unfolding is_ruling_shaped ruling_body skip after_prefix
ruling_body-shaped v reason = refl

-- A ruling with a reason reads back from the comment that records it, with the reason trimmed.
pub parse_ruling-ruling_body :
    (v : Verdict) (reason : String)
    → is_empty (trim reason) ≡ false
    → parse_ruling (ruling_body v reason) ≡ parsed (record { verdict = v; reason = trim reason })
unfolding parse_ruling of_parts with_reason
parse_ruling-ruling_body v reason h =
    let back : trim (skip is_space (trim reason)) ≡ trim reason =
      ap trim (skip-trim reason) ∙ trim-trim reason in
    rw (ruling_body-shaped v reason) (ap of_parts (ruling_parts-body v reason) ∙ rw (back, h) refl)
