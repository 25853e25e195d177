-- ===== src/Landing/Probe/Answers.antt =====
-- What the annotation of a ticket is worth: `annotateTicketLanding` of hub/src/landing.ts.
use dev_loop.Common.{String, Bool, true, false, none, List, ◌≡◌, find}
use dev_loop.Landing.{Answer, replied, Forge, ListedPr}
use dev_loop.Landing.Probe.{is_for, LandingAnnotation, no_pr}

-- A confident negative.
abbrev pub is_no_pr : LandingAnnotation → Bool
is_no_pr no_pr = true
is_no_pr _ = false

module _ (forge : Forge) (repo id : String) where
  -- The second search answered, and has no pull request of the ticket.
  abbrev pub IsAbsent : Answer (List ListedPr) → Type 0
  IsAbsent a = (ps : List ListedPr) × (a ≡ replied ps) × (find (is_for id) ps ≡ none)
