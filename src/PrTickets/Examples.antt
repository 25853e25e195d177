-- ===== src/PrTickets/Examples.antt =====
-- Claims of a pull request with two tickets.
use dev_loop.Common.{
  String, false, Option, none, List, [], ◌∷◌, ◌++◌, ◌≡◌, refl, includes, ◌||◌, head?, ◌or_else◌,
}
use dev_loop.PrTickets.{PrTicketSources, pr_ticket_ids, ticket_from_branch, branch_ids, scan_texts}
use dev_loop.PrTickets.Claims.{IsDistinct, pr_ticket_ids_claims}

abbrev two_tickets : PrTicketSources
two_tickets = record {
  branch = "dev-loop/LOOP-142";
  commit_messages = "fix LOOP-148: x" ∷ [];
  title = "LOOP-142";
  body = "see aLOOP-3 and LOOP-9x";
}

two_tickets_run : pr_ticket_ids two_tickets ≡ "LOOP-142" ∷ "LOOP-148" ∷ []
unfolding pr_ticket_ids
two_tickets_run = refl

no_ticket : ticket_from_branch "fix//LOOP-1" ≡ none
unfolding ticket_from_branch dev_loop.Common.Text.span
no_ticket = refl

abbrev texts : List String
texts = two_tickets.commit_messages ++ two_tickets.title ∷ two_tickets.body ∷ []

two_tickets_claims :
    IsDistinct (pr_ticket_ids two_tickets)
    × (head? (pr_ticket_ids two_tickets)
        ≡ (ticket_from_branch two_tickets.branch or_else head? (scan_texts texts)))
    × (includes "LOOP-148" (pr_ticket_ids two_tickets)
        ≡ includes "LOOP-148" (branch_ids (ticket_from_branch two_tickets.branch))
          || includes "LOOP-148" (scan_texts texts))
two_tickets_claims = pr_ticket_ids_claims two_tickets "LOOP-148" refl
