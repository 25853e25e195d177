-- ===== src/Breaker/Lanes.antt =====
-- Which lanes are open, their intervals and their probes: hub/src/breaker.ts.
use dev_loop.Common.{
  ℕ, ◌+◌, String, Bool, true, false, ◌&&◌, ◌||◌, Option, none, some, List, leb, eqb, if◌then◌else◌,
  ◌or_else◌,
}
use dev_loop.Common.Maps.{lookup, set, set_where, any_entry}
use dev_loop.Breaker.State.{
  Entry, Breaker, nonempty, flatten, notify, entry_of, of_provider, on_probe, on_reschedule,
  changed,
}

abbrev provider_open : String → List (String × Entry) → Bool
provider_open p = any_entry (λ k e. of_provider p k && e.«open»)

unfoldable pub open_through : Option String → Breaker → Bool
open_through none b = false
open_through (some p) b = provider_open p b.by_provider

-- `isOpen`.
unfoldable pub is_open : String → Breaker → Bool
unfolding open_through
is_open agent b =
    (entry_of agent b.by_agent).«open»
    || open_through (nonempty (flatten (lookup agent b.agent_provider))) b

-- `Math.max(a, b)`.
abbrev pub longer : ℕ → ℕ → ℕ
longer a b = if leb a b then b else a

abbrev pub probed_at : ℕ → Entry → Entry
probed_at time e = record e { cooldown_until = some time }

-- `intervalFor`: the interval, and the next probe of an open lane.
unfoldable pub interval_for : String → ℕ → ℕ → Breaker → Breaker × ℕ
interval_for agent base_ms now b =
    let ms = longer base_ms b.probe_ms in
    let e = probed_at (now + ms) (entry_of agent b.by_agent) in
    if is_open agent b
    then (notify (changed on_reschedule) (record b { by_agent = set agent e b.by_agent }), ms)
    else (b, base_ms)

abbrev probing : Entry → Entry
probing e = if e.«open» then record e { probe_in_flight = true } else e

probe_agent : String → Option Entry → Breaker → Breaker
probe_agent agent none b = b
probe_agent agent (some e) b = record b { by_agent = set agent (probing e) b.by_agent }

probe_provider : Option String → Breaker → Breaker
probe_provider none b = b
probe_provider (some p) b = record b {
  by_provider = set_where (of_provider p) probing b.by_provider;
}

-- `markProbe`.
unfoldable pub mark_probe : String → Option String → Breaker → Breaker × Bool
unfolding probe_agent probe_provider open_through
mark_probe agent provider b =
    let p = nonempty (provider or_else flatten (lookup agent b.agent_provider)) in
    let b' = probe_provider p (probe_agent agent (lookup agent b.by_agent) b) in
    let found = (entry_of agent b.by_agent).«open» || open_through p b in
    if eqb b.threshold 0
    then (b, false)
    else if found
    then (notify (changed on_probe) b', true)
    else (b', false)
