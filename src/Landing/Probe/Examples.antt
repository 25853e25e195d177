-- ===== src/Landing/Probe/Examples.antt =====
-- A ticket without a pull request: hub/src/landing.ts.
use dev_loop.Common.{[], ◌≡◌, refl}
use dev_loop.Landing.{failed, replied, Forge}
use dev_loop.Landing.Probe.{annotate_ticket_landing, unknown_landing}

abbrev silent : Forge
silent = record {
  checks = λ repo pr. failed "";
  compare = λ repo base head. failed "";
  delta = λ repo head base. failed "";
  reviews = λ repo pr. failed "";
  graph = λ repo pr. failed "";
  head = λ repo pr. failed "";
  state = λ repo pr. failed "";
  list_head = λ repo branch. replied [];
  search = λ repo text. replied [];
  landing = λ repo pr. failed "";
}

outage_is_unknown :
    annotate_ticket_landing
      (record silent { list_head = λ repo branch. failed "offline" })
      "acme/hub"
      "LOOP-1"
    ≡ unknown_landing
unfolding annotate_ticket_landing
outage_is_unknown = refl
