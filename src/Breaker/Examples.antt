-- ===== src/Breaker/Examples.antt =====
-- The breaker's theorems at work.
use dev_loop.Common.{
  ℕ, ◌≤◌, String, Bool, true, false, Option, none, some, List, [], ◌∷◌, ◌≡◌, refl, ◌⊎◌, ◌↔◌, inl,
  inr, arith, eqb, leb, length, includes,
}
use dev_loop.Common.Maps.{lookup}
use dev_loop.Breaker.State.{
  Breaker, Entry, fresh, entry_of, provider_scoped_classes, nonempty, flatten,
}
use dev_loop.Breaker.Recording.{FireEnd, record_fire, scope_of}
use dev_loop.Breaker.Lanes.{is_open, interval_for}
use dev_loop.Breaker.Keys.{failure_key}
use dev_loop.Breaker.Failures.{record_all}
use dev_loop.Breaker.Streaks.{agent_run-streak}
use dev_loop.Breaker.Outages.{outage_opens_lanes}
use dev_loop.Breaker.Recovery.{success-closes, interval_for-lane}
use dev_loop.Breaker.Classify.{
  FireError, classify_fire_error, classify_fire_error-scoped, classify_fire_error-none,
  tail_error_class,
}

abbrev hash : String → String
hash s = "0123abcd"

abbrev breaker : Breaker
breaker = record {
  threshold = 2;
  probe_ms = 3600000;
  by_agent = [];
  by_provider = [];
  agent_provider = ("qa", some "openai") ∷ [];
  notices = [];
}

abbrev failure : FireEnd
failure = record {
  agent = "qa";
  exit_code = 1;
  error_class = some "timeout";
  tail = none;
  provider = some (some "openai");
  interrupted = false;
  at = 50;
}

failure_timeout : failure_key (some "timeout") none ≡ "timeout"
unfolding failure_key
failure_timeout = refl

agent_scope : scope_of (some "timeout") (some (some "openai")) ≡ none
unfolding scope_of
agent_scope = refl

agent_run-streak_example :
    ((entry_of "qa" (record_all hash (failure ∷ failure ∷ []) breaker).by_agent).streak ≡ 2)
    × ((entry_of "qa" (record_all hash (failure ∷ failure ∷ []) breaker).by_agent).«open» ≡ leb 2 2)
agent_run-streak_example =
    agent_run-streak hash "qa" "timeout" (failure ∷ failure ∷ []) breaker
      (
        ((refl, refl), refl, failure_timeout, agent_scope),
        (((refl, refl), refl, failure_timeout, agent_scope), tt),
      )
      refl refl

abbrev limited : String → FireEnd
limited agent = record failure { agent = agent; error_class = some "rate-limit" }

abbrev outage : List FireEnd
outage = limited "pm" ∷ limited "senior-dev" ∷ []

lane_of_qa :
    nonempty (flatten (lookup "qa" (record_all hash outage breaker).agent_provider)) ≡ some "openai"
unfolding record_all record_fire dev_loop.Breaker.Recording.record_failure scope_of
    dev_loop.Breaker.State.end_probe dev_loop.Breaker.State.provider_of
    dev_loop.Common.Maps.set_where dev_loop.Breaker.Recording.count_failure dev_loop.Common.Maps.set
    failure_key dev_loop.Common.Text.is_prefix
lane_of_qa = refl

outage_opens_lanes_example : is_open "qa" (record_all hash outage breaker) ≡ true
outage_opens_lanes_example =
    outage_opens_lanes hash "openai" "rate-limit" refl outage breaker "qa"
      (((refl, refl), refl, refl), (((refl, refl), refl, refl), tt)) refl refl (omega arith)
      lane_of_qa

abbrev success : FireEnd
success = record failure { exit_code = 0; error_class = none }

threshold_kept : eqb (record_all hash outage breaker).threshold 0 ≡ false
unfolding record_all record_fire dev_loop.Breaker.Recording.record_failure scope_of
    dev_loop.Breaker.State.end_probe dev_loop.Breaker.State.provider_of
    dev_loop.Common.Maps.set_where dev_loop.Breaker.Recording.count_failure dev_loop.Common.Maps.set
    failure_key dev_loop.Common.Text.is_prefix
threshold_kept = refl

success-closes_example :
    is_open "qa" (record_fire hash success (record_all hash outage breaker)) ≡ false
success-closes_example =
    success-closes hash success (record_all hash outage breaker) threshold_kept refl refl

lane_interval :
    ((is_open "qa" breaker ≡ false) × ((interval_for "qa" 60000 9 breaker).1 ≡ 60000)
      ⊎ (is_open "qa" breaker ≡ true)
        × (60000 ≤ (interval_for "qa" 60000 9 breaker).1)
        × (3600000 ≤ (interval_for "qa" 60000 9 breaker).1)
        × (((interval_for "qa" 60000 9 breaker).1 ≡ 60000)
            ⊎ ((interval_for "qa" 60000 9 breaker).1 ≡ 3600000)))
    × (is_open "pm" (interval_for "qa" 60000 9 breaker).0 ≡ is_open "pm" breaker)
lane_interval = interval_for-lane "qa" "pm" 60000 9 breaker

abbrev killed : FireError
killed = record {
  exit_code = 137;
  timed_out = false;
  tail = "HTTP 429 Too Many Requests";
  stalled = false;
  retry_loop = false;
  budget_killed = true;
  evidence = some (record { ceiling_usd = some 20; spent_usd = some 4; total_tokens = some 900 });
  no_work = false;
}

killed_class : classify_fire_error killed ≡ some "rate-limit"
unfolding classify_fire_error dev_loop.Breaker.Classify.measured_breach tail_error_class
killed_class = refl

classify_fire_error-scoped_example : tail_error_class killed.tail ≡ some "rate-limit"
classify_fire_error-scoped_example =
    classify_fire_error-scoped killed "rate-limit" killed_class refl

fire_without_class : (classify_fire_error killed ≡ none) ↔ (
    (true ≡ false)
    × (false ≡ false)
    × (false ≡ false)
    × (false ≡ false)
    × (false ≡ false)
    × ((eqb 137 0 ≡ true) ⊎ (tail_error_class killed.tail ≡ none)))
fire_without_class = classify_fire_error-none killed
