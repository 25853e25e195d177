-- ===== src/Landing/Probe.antt =====
-- The pull request of a ticket, and how far it has come: `prToTicket`, `probeTicketPr`, `ticketToPr` and
-- `annotateTicketLanding` of hub/src/landing.ts.
pub mod Answers
pub mod Examples
use dev_loop.Common.{
  String, Bool, true, false, not, Option, none, some, List, [], ◌∷◌, ◌==◌, includes, find, any,
  is_nil, head?, get_or, ◌or_else◌, if◌then◌else◌,
}
use dev_loop.Common.Text.{append, is_empty}
use dev_loop.PrTickets.{scan_from, scan_ids, ticket_from_branch}
use dev_loop.Landing.{Answer, failed, threw, garbled, replied, Forge, ListedPr, PrLanding}

-- `prToTicket`.
unfoldable pub pr_to_ticket : String → String → String → Option String
unfolding ticket_from_branch scan_from
pr_to_ticket head_ref_name title body =
    ticket_from_branch head_ref_name or_else head? (scan_ids (append title (append " " body)))

-- `TicketPrProbe`.
pub record TicketPrProbe : Type 0 where
  pub pr : Option ListedPr
  pub reachable : Bool

unfoldable pub is_for : String → ListedPr → Bool
unfolding pr_to_ticket
is_for ticket_id p = elim (pr_to_ticket p.head_ref_name p.title p.body) [
  | none ↦ false
  | some id ↦ id == ticket_id
]

abbrev pub found_pr : ListedPr → TicketPrProbe
found_pr p = record { pr = some p; reachable = true }

abbrev pub no_pr_found : Bool → TicketPrProbe
no_pr_found reachable = record { pr = none; reachable = reachable }

abbrev pub found_or_none : Bool → Option ListedPr → TicketPrProbe
found_or_none asked none = no_pr_found asked
found_or_none asked (some p) = found_pr p

-- The second search, given whether the first one answered.
unfoldable pub search_result : Bool → String → Answer (List ListedPr) → TicketPrProbe
unfolding is_for
search_result asked ticket_id (replied ps) = found_or_none asked (find (is_for ticket_id) ps)
search_result asked ticket_id _ = no_pr_found false

unfoldable pub probe_from : Forge → String → String → Answer (List ListedPr) → TicketPrProbe
unfolding search_result
probe_from forge repo ticket_id (threw _) = no_pr_found false
probe_from forge repo ticket_id (garbled _) = no_pr_found false
probe_from forge repo ticket_id (failed _) =
    search_result false ticket_id (forge.search repo ticket_id)
probe_from forge repo ticket_id (replied []) =
    search_result true ticket_id (forge.search repo ticket_id)
probe_from forge repo ticket_id (replied (p ∷ ps)) = found_pr p

-- `probeTicketPr`.
unfoldable pub probe_ticket_pr : Forge → String → String → TicketPrProbe
unfolding probe_from
probe_ticket_pr forge repo ticket_id =
    probe_from forge repo ticket_id (forge.list_head repo (append "dev-loop/" ticket_id))

-- `ticketToPr`.
unfoldable pub ticket_to_pr : Forge → String → String → Option ListedPr
unfolding probe_ticket_pr
ticket_to_pr forge repo ticket_id = (probe_ticket_pr forge repo ticket_id).pr

-- `LandingAnnotation`.
pub data LandingAnnotation : Type 0 where
  merged open_green open_red conflicting no_pr unknown_landing : LandingAnnotation

abbrev pub bad_conclusions : List String
bad_conclusions =
    "FAILURE" ∷ "TIMED_OUT" ∷ "CANCELLED" ∷ "ACTION_REQUIRED" ∷ "STARTUP_FAILURE" ∷ "STALE" ∷ []

-- The conclusions that are there.
unfoldable pub present : List (Option String) → List String
present [] = []
present (none ∷ cs) = present cs
present (some c ∷ cs) = let rest = present cs in if is_empty c then rest else c ∷ rest

unfoldable pub annotate_checks : List String → LandingAnnotation
annotate_checks checks =
    if any (λ c. includes c bad_conclusions) checks
    then open_red
    else if not (is_nil checks)
    then open_green
    else open_red

unfoldable pub annotate_view : Answer PrLanding → LandingAnnotation
unfolding annotate_checks present
annotate_view (replied d) =
    if d.mergeable == "CONFLICTING"
    then conflicting
    else if d.mergeable == "UNKNOWN"
    then unknown_landing
    else annotate_checks (present (get_or d.conclusions []))
annotate_view _ = unknown_landing

unfoldable pub annotate_probe : Forge → String → TicketPrProbe → LandingAnnotation
unfolding annotate_view
annotate_probe forge repo p = elim p.pr [
  | none ↦ if p.reachable then no_pr else unknown_landing
  | some pr ↦ if pr.state == "MERGED" then merged else annotate_view (forge.landing repo pr.number)
]

-- `annotateTicketLanding`.
unfoldable pub annotate_ticket_landing : Forge → String → String → LandingAnnotation
unfolding annotate_probe probe_ticket_pr
annotate_ticket_landing forge repo ticket_id =
    annotate_probe forge repo (probe_ticket_pr forge repo ticket_id)
