-- ===== src/Breaker/Persist/Examples.antt =====
-- A restart within the probe interval.
use dev_loop.Common.{String, true, false, some, [], ◌∷◌, ◌≡◌, refl}
use dev_loop.Breaker.State.{Entry, Breaker, fresh, entry_of}
use dev_loop.Breaker.Persist.{snapshot, restore}
use dev_loop.Breaker.Persist.Restart.{open_and_young, restart_keeps_open, started}

abbrev hash : String → String
hash s = "0123abcd"

abbrev failing : Entry
failing = record fresh {
  key = some "timeout";
  streak = 3;
  «open» = true;
  opened_at = some 50;
  last_failure_at = some 90;
  last_error_class = some "timeout";
}

abbrev old : Breaker
old = record {
  threshold = 2;
  probe_ms = 100;
  by_agent = ("qa", failing) ∷ ("pm", record fresh { streak = 1 }) ∷ [];
  by_provider = ("openai:auth", failing) ∷ [];
  agent_provider = ("qa", some "openai") ∷ [];
  notices = [];
}

restart_keeps_open_example :
    (entry_of "qa" (restore 150 (snapshot hash 95 old) (started 3 100 [])).breaker.by_agent).«open»
    ≡ open_and_young 150 100 95 "qa" old.by_agent
restart_keeps_open_example = restart_keeps_open hash 95 150 "qa" old 3 100 [] refl

-- The open entry is resumed while it is young, and is stale afterwards.
resumed_while_young :
    (entry_of "qa" (restore 150 (snapshot hash 95 old) (started 3 100 [])).breaker.by_agent).«open»
    ≡ true
resumed_while_young = restart_keeps_open_example

stale_afterwards :
    (entry_of "qa" (restore 190 (snapshot hash 95 old) (started 3 100 [])).breaker.by_agent).«open»
    ≡ false
stale_afterwards = restart_keeps_open hash 95 190 "qa" old 3 100 [] refl
