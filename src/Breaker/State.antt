-- ===== src/Breaker/State.antt =====
-- The state of the breaker and its callbacks: hub/src/breaker.ts.
use dev_loop.Common.{
  ℕ, String, Bool, true, false, ◌&&◌, ◌||◌, Option, none, some, List, [], ◌∷◌, ◌++◌, if◌then◌else◌,
  get_or, is_some, ◌or_else◌,
}
use dev_loop.Common.Text.{append, is_empty, is_prefix}
use dev_loop.Common.Maps.{lookup, set, set_where, any_entry}

-- `BreakerEntry`; the optional fields that are absent are `none` and `false`.
pub record Entry : Type 0 where
  pub key : Option String
  pub streak : ℕ
  pub «open» : Bool
  pub opened_at : Option ℕ
  pub last_failure_at : Option ℕ
  pub last_error_class : Option String
  pub probe_in_flight : Bool
  pub cooldown_until : Option ℕ

abbrev pub fresh : Entry
fresh = record {
  key = none;
  streak = 0;
  «open» = false;
  opened_at = none;
  last_failure_at = none;
  last_error_class = none;
  probe_in_flight = false;
  cooldown_until = none;
}

pub data Reason : Type 0 where
  on_record on_probe on_reschedule on_resume : Reason

-- A call of `onEvent` or of `onChange`.
pub data Notice : Type 0 where
  opened closed : (agent key : String) (streak : ℕ) → Notice
  changed : Reason → Notice

pub record Breaker : Type 0 where
  pub threshold : ℕ
  pub probe_ms : ℕ
  pub by_agent : List (String × Entry)
  pub by_provider : List (String × Entry)
  pub agent_provider : List (String × Option String)
  pub notices : List Notice

abbrev pub provider_scoped_classes : List String
provider_scoped_classes = "spend-limit" ∷ "rate-limit" ∷ "auth" ∷ "session-limit" ∷ []

-- A text that JavaScript takes as true.
abbrev pub nonempty : Option String → Option String
nonempty none = none
nonempty (some s) = if is_empty s then none else some s

abbrev pub flatten : Option (Option String) → Option String
flatten none = none
flatten (some o) = o

abbrev pub notify : Notice → Breaker → Breaker
notify n b = record b { notices = b.notices ++ n ∷ [] }

-- `this.byAgent.get(agent) ?? { key: null, streak: 0, open: false }`.
abbrev pub entry_of : String → List (String × Entry) → Entry
entry_of k m = get_or (lookup k m) fresh

abbrev pub of_provider : String → String → Bool
of_provider p k = is_prefix (append p ":") k

-- `seedProvider`.
unfoldable pub seed_provider : String → Option String → Breaker → Breaker
seed_provider agent provider b =
    if is_some (lookup agent b.agent_provider)
    then b
    else record b { agent_provider = set agent provider b.agent_provider }

-- `provider ?? this._agentProvider.get(agent)`, once a provider that is not undefined is recorded.
unfoldable pub provider_of : String → Option (Option String) → Breaker → Option String
provider_of agent provider b = flatten provider or_else flatten (lookup agent b.agent_provider)

abbrev pub ended : Entry → Entry
ended e = record e { probe_in_flight = false }

unfoldable pub end_agent : String → Option Entry → Breaker → Breaker × Bool
end_agent agent none b = (b, false)
end_agent agent (some e) b =
    if e.probe_in_flight
    then (record b { by_agent = set agent (ended e) b.by_agent }, true)
    else (b, false)

unfoldable pub end_provider : Option String → Breaker × Bool → Breaker × Bool
end_provider none (b, changed_before) = (b, changed_before)
end_provider (some p) (b, changed_before) = (
  record b { by_provider = set_where (of_provider p) ended b.by_provider },
  changed_before || any_entry (λ k e. of_provider p k && e.probe_in_flight) b.by_provider,
)

-- `_endProbe`: the flags are cleared, and whether one was set.
unfoldable pub end_probe : String → Option String → Breaker → Breaker × Bool
unfolding end_agent end_provider
end_probe agent provider b =
    end_provider (nonempty provider) (end_agent agent (lookup agent b.by_agent) b)
