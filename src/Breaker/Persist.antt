-- ===== src/Breaker/Persist.antt =====
-- `snapshot` and `restore`: hub/src/breaker.ts. An instant in ISO form is its number of milliseconds.
pub mod Restart
pub mod Examples
use Prim.Native.Char.{code}
use dev_loop.Common.{
  ℕ, zero, ◌+◌, ◌<◌, String, Bool, true, false, ◌&&◌, ◌||◌, not, Option, none, some, List, [], ◌∷◌,
  ◌++◌, ◌==◌, ltb, leb, eqb, is_nil, is_some, get_or, if◌then◌else◌, ◌or_else◌,
}
use dev_loop.Common.Int.{ℤ, sub_ℕ}
use dev_loop.Common.Text.{append, span, drop_span}
use dev_loop.Common.Maps.{lookup, set}
use dev_loop.Breaker.State.{
  Entry, Breaker, flatten, notify, entry_of, seed_provider, on_resume, changed,
}
use dev_loop.Breaker.Keys.{persisted_key}

pub data PersistedState : Type 0 where
  at_open at_closed at_half_open : PersistedState

-- `BreakerPersistedEntry`; `provider` is the lane's or the breaker's own.
pub record PersistedEntry : Type 0 where
  pub state : PersistedState
  pub consecutive_failures : ℕ
  pub opened_at : Option ℕ
  pub last_failure_at : Option ℕ
  pub last_error_class : Option String
  pub last_reason : Option String
  pub probe_in_flight : Bool
  pub cooldown_until : Option ℕ
  pub provider : Option String
  pub error_class : String

pub record StateFile : Type 0 where
  pub threshold : ℕ
  pub probe_ms : ℕ
  pub agents : List (String × PersistedEntry)
  pub providers : List (String × PersistedEntry)
  pub lanes : List (String × Option String)
  pub updated_at : ℕ

unfoldable pub state_of : Entry → PersistedState
state_of e = if e.«open» then (if e.probe_in_flight then at_half_open else at_open) else at_closed

abbrev reason_of : (String → String) → Option String → Option String → Option String
reason_of hash none class = none
reason_of hash (some key) class = some (persisted_key hash key class)

-- `base`, with the provider, the class and the next probe that the caller adds.
unfoldable pub persisted :
    (String → String) → Option String → String → Option ℕ → Entry → PersistedEntry
unfolding state_of
persisted hash provider class cooldown e = record {
  state = state_of e;
  consecutive_failures = e.streak;
  opened_at = e.opened_at;
  last_failure_at = e.last_failure_at;
  last_error_class = e.last_error_class;
  last_reason = reason_of hash e.key e.last_error_class;
  probe_in_flight = e.probe_in_flight;
  cooldown_until = cooldown;
  provider = provider;
  error_class = class;
}

-- Only entries that carry state are written.
unfoldable pub agents_of :
    (String → String)
    → List (String × Option String)
    → List (String × Entry)
    → List (String × PersistedEntry)
unfolding persisted
agents_of hash lanes [] = []
agents_of hash lanes ((agent, e) ∷ es) =
    let rest = agents_of hash lanes es in
    if e.«open» || ltb 0 e.streak || e.probe_in_flight
    then (agent, persisted hash (flatten (lookup agent lanes)) "" e.cooldown_until e) ∷ rest
    else rest

abbrev not_colon : ℕ → Bool
not_colon c = not (eqb c b':')

-- `k.slice(i + 1)` for the index `i` of the first colon.
abbrev behind_colon : String → String
behind_colon String.[] = String.[]
behind_colon (String.◌∷◌ c s) = s

abbrev same_provider : String → Option String → Bool
same_provider p none = false
same_provider p (some q) = q == p

abbrev sooner : Option ℕ → Option ℕ → Option ℕ
sooner none c = c
sooner (some t) none = some t
sooner (some t) (some c) = if ltb t c then some t else some c

-- The earliest next probe among the lanes of a provider.
cooldown_from : String → List (String × Option String) → List (String × Entry) → Option ℕ → Option ℕ
cooldown_from p lanes [] c = c
cooldown_from p lanes ((agent, e) ∷ es) c =
    cooldown_from p lanes es
      (if same_provider p (flatten (lookup agent lanes)) then sooner e.cooldown_until c else c)

unfoldable pub providers_of :
    (String → String) → Breaker → List (String × Entry) → List (String × PersistedEntry)
unfolding persisted cooldown_from
providers_of hash b [] = []
providers_of hash b ((k, e) ∷ es) =
    let rest = providers_of hash b es in
    let provider = span not_colon k in
    let class = behind_colon (drop_span not_colon k) in
    let cooldown = cooldown_from provider b.agent_provider b.by_agent none in
    if e.«open» || ltb 0 e.streak
    then (k, persisted hash (some provider) class cooldown e) ∷ rest
    else rest

-- `snapshot`, without the fields that name the scheduler.
unfoldable pub snapshot : (String → String) → ℕ → Breaker → StateFile
unfolding agents_of providers_of
snapshot hash now b = record {
  threshold = b.threshold;
  probe_ms = b.probe_ms;
  agents = agents_of hash b.agent_provider b.by_agent;
  providers = providers_of hash b b.by_provider;
  lanes = b.agent_provider;
  updated_at = now;
}

pub data Kind : Type 0 where
  agent_item provider_item : Kind

-- `BreakerRestoreItem`.
pub record RestoreItem : Type 0 where
  pub kind : Kind
  pub name : String
  pub reason : Option String
  pub streak : ℕ
  pub age_ms : ℤ

pub record Restored : Type 0 where
  pub breaker : Breaker
  pub resumed : List RestoreItem
  pub stale : List RestoreItem

-- The last evidence of an entry.
abbrev pub evidence_at : ℕ → PersistedEntry → ℕ
evidence_at updated s = get_or (s.last_failure_at or_else s.opened_at) updated

-- `entryOf`.
abbrev pub resumed_entry : PersistedEntry → Entry
resumed_entry s = record {
  key = s.last_reason;
  streak = s.consecutive_failures;
  «open» = true;
  opened_at = s.opened_at;
  last_failure_at = s.last_failure_at;
  last_error_class = s.last_error_class;
  probe_in_flight = false;
  cooldown_until = none;
}

abbrev pub was_closed : PersistedState → Bool
was_closed at_closed = true
was_closed _ = false

-- `consider`, with the breaker that `apply` leaves.
unfoldable pub consider : ℕ → ℕ → Kind → String → PersistedEntry → Breaker → Restored → Restored
consider now updated kind name s applied r =
    let at = evidence_at updated s in
    let item : RestoreItem = record {
      kind = kind;
      name = name;
      reason = s.last_reason;
      streak = s.consecutive_failures;
      age_ms = sub_ℕ now at;
    } in
    if was_closed s.state
    then r
    else if ltb now (at + r.breaker.probe_ms)
    then record r { breaker = applied; resumed = r.resumed ++ item ∷ [] }
    else record r { stale = r.stale ++ item ∷ [] }

abbrev pub set_agent : String → PersistedEntry → Breaker → Breaker
set_agent agent s b = record b { by_agent = set agent (resumed_entry s) b.by_agent }

abbrev pub set_provider : String → PersistedEntry → Breaker → Breaker
set_provider k s b = record b { by_provider = set k (resumed_entry s) b.by_provider }

unfoldable pub restore_agents : ℕ → ℕ → List (String × PersistedEntry) → Restored → Restored
unfolding consider
restore_agents now updated [] r = r
restore_agents now updated ((agent, s) ∷ ss) r =
    restore_agents now updated ss
      (consider now updated agent_item agent s (set_agent agent s r.breaker) r)

-- `${s.provider}:${s.errorClass}`.
abbrev pub provider_key : PersistedEntry → String
provider_key s = append (get_or s.provider "") (append ":" s.error_class)

unfoldable pub restore_providers : ℕ → ℕ → List (String × PersistedEntry) → Restored → Restored
unfolding consider
restore_providers now updated [] r = r
restore_providers now updated ((k, s) ∷ ss) r =
    let name = provider_key s in
    restore_providers now updated ss
      (consider now updated provider_item name s (set_provider name s r.breaker) r)

unfoldable pub seed_lanes : List (String × Option String) → Breaker → Breaker
seed_lanes [] b = b
seed_lanes ((agent, provider) ∷ lanes) b = seed_lanes lanes (seed_provider agent provider b)

abbrev pub tell_resumed : Restored → Restored
tell_resumed r =
    if is_nil r.resumed then r else record r { breaker = notify (changed on_resume) r.breaker }

-- `restore`.
unfoldable pub restore : ℕ → StateFile → Breaker → Restored
unfolding restore_agents restore_providers seed_lanes
restore now file b =
    let seeded : Restored = record {
      breaker = seed_lanes file.lanes b;
      resumed = [];
      stale = [];
    } in
    if eqb b.threshold 0
    then record { breaker = b; resumed = []; stale = [] }
    else tell_resumed (
        restore_providers now file.updated_at file.providers
          (restore_agents now file.updated_at file.agents seeded))
