-- ===== src/Breaker/Persist/Restart.antt =====
-- Which lanes a restart leaves open: hub/src/breaker.ts.
use dev_loop.Common.{
  ℕ, ◌+◌, String, Bool, true, false, ◌&&◌, ◌||◌, not, Option, List, [], ◌∷◌, ◌==◌, ◌≡◌, ◌∙◌, refl,
  ap, arith, ltb, eqb, get_or, ◌or_else◌, inl, inr, Bool-cases, eq_iff,
}
use mathlib.Core.Path.{subst}
use dev_loop.Common.Maps.{lookup-set, lookup-set-other}
use dev_loop.Breaker.State.{Entry, Breaker, fresh, entry_of, seed_provider}
use dev_loop.Breaker.Persist.{
  PersistedEntry, StateFile, state_of, persisted, agents_of, snapshot, Kind, agent_item,
  provider_item, Restored, evidence_at, resumed_entry, was_closed, consider, set_agent,
  set_provider, provider_key, restore_agents, restore_providers, seed_lanes, tell_resumed, restore,
}

abbrev own_open : String → Breaker → Bool
own_open agent b = (entry_of agent b.by_agent).«open»

-- Is an entry of the agent open, with evidence younger than the probe interval.
abbrev pub open_and_young : (now probe_ms at : ℕ) (agent : String) → List (String × Entry) → Bool
open_and_young now probe_ms at agent [] = false
open_and_young now probe_ms at agent ((k, e) ∷ es) =
    (k == agent
      && e.«open»
      && ltb now (get_or (e.last_failure_at or_else e.opened_at) at + probe_ms))
    || open_and_young now probe_ms at agent es

-- The same of the file.
abbrev file_young : (now probe_ms at : ℕ) (agent : String) → List (String × PersistedEntry) → Bool
file_young now probe_ms at agent [] = false
file_young now probe_ms at agent ((k, s) ∷ ss) =
    (k == agent && not (was_closed s.state) && ltb now (evidence_at at s + probe_ms))
    || file_young now probe_ms at agent ss

file_young-agents_of :
    (hash : String → String) (lanes : List (String × Option String)) (now probe_ms at : ℕ)
    (agent : String) (es : List (String × Entry))
    → file_young now probe_ms at agent (agents_of hash lanes es)
      ≡ open_and_young now probe_ms at agent es
unfolding agents_of persisted state_of
file_young-agents_of hash lanes now probe_ms at agent [] = refl
file_young-agents_of hash lanes now probe_ms at agent ((k, e) ∷ es) =
    ground (arith, file_young-agents_of hash lanes now probe_ms at agent es)

open-set :
    (agent k : String) (s : PersistedEntry) (b : Breaker)
    → own_open agent (set_agent k s b) ≡ (k == agent || own_open agent b)
open-set agent k s b = elim (Bool-cases (k == agent)) [
  | inl same ↦
      let here : own_open k (set_agent k s b) ≡ true =
        ap (λ o. (get_or o fresh).«open») (lookup-set k (resumed_entry s) b.by_agent) in
      rw same (subst (λ j. own_open j (set_agent k s b) ≡ true) ((eq_iff k agent).0 same) here)
  | inr other ↦ rw other (
      ap (λ o. (get_or o fresh).«open»)
        (lookup-set-other agent k (resumed_entry s) b.by_agent other))
]

consider-probe :
    (now at : ℕ) (kind : Kind) (name k : String) (s : PersistedEntry) (r : Restored)
    → ((consider now at kind name s (set_agent k s r.breaker) r).breaker.probe_ms
        ≡ r.breaker.probe_ms)
unfolding consider
consider-probe now at kind name k s r = ground arith

consider-open :
    (now at : ℕ) (agent k : String) (s : PersistedEntry) (r : Restored)
    → own_open agent (consider now at agent_item k s (set_agent k s r.breaker) r).breaker
      ≡ own_open agent r.breaker
        || (k == agent
            && not (was_closed s.state)
            && ltb now (evidence_at at s + r.breaker.probe_ms))
unfolding consider
consider-open now at agent k s r = elim (Bool-cases (was_closed s.state)) [
  | inl shut ↦ rw shut (ground arith)
  | inr others ↦ elim (Bool-cases (ltb now (evidence_at at s + r.breaker.probe_ms))) [
    | inl young ↦ rw (others, young) (open-set agent k s r.breaker ∙ (ground arith))
    | inr old ↦ rw (others, old) (ground arith)
  ]
]

restore_agents-open :
    (now at : ℕ) (agent : String) (ss : List (String × PersistedEntry)) (r : Restored)
    → own_open agent (restore_agents now at ss r).breaker
      ≡ own_open agent r.breaker || file_young now r.breaker.probe_ms at agent ss
unfolding restore_agents
restore_agents-open now at agent [] r = ground arith
restore_agents-open now at agent ((k, s) ∷ ss) r =
    let next = consider now at agent_item k s (set_agent k s r.breaker) r in
    let later = restore_agents-open now at agent ss next in
    let same = ap (λ p. file_young now p at agent ss) (consider-probe now at agent_item k k s r) in
    ground (arith, later, same, consider-open now at agent k s r)

restore_providers-agents :
    (now at : ℕ) (ss : List (String × PersistedEntry)) (r : Restored)
    → (restore_providers now at ss r).breaker.by_agent ≡ r.breaker.by_agent
unfolding restore_providers consider
restore_providers-agents now at [] r = refl
restore_providers-agents now at ((k, s) ∷ ss) r =
    let name = provider_key s in
    let next = consider now at provider_item name s (set_provider name s r.breaker) r in
    restore_providers-agents now at ss next ∙ (ground arith)

seed_lanes-same :
    (lanes : List (String × Option String)) (b : Breaker)
    → ((seed_lanes lanes b).by_agent ≡ b.by_agent) × ((seed_lanes lanes b).probe_ms ≡ b.probe_ms)
unfolding seed_lanes seed_provider
seed_lanes-same [] b = (refl, refl)
seed_lanes-same ((agent, provider) ∷ lanes) b =
    ground (arith, seed_lanes-same lanes (seed_provider agent provider b))

tell_resumed-agents : (r : Restored) → (tell_resumed r).breaker.by_agent ≡ r.breaker.by_agent
tell_resumed-agents r = ground arith

abbrev seeded : List (String × Option String) → Breaker → Restored
seeded lanes b = record { breaker = seed_lanes lanes b; resumed = []; stale = [] }

restore-by_agent :
    (now : ℕ) (file : StateFile) (b : Breaker)
    → eqb b.threshold 0 ≡ false
    → (restore now file b).breaker.by_agent
      ≡ (restore_agents now file.updated_at file.agents (seeded file.lanes b)).breaker.by_agent
unfolding restore
restore-by_agent now file b on =
    let agents = restore_agents now file.updated_at file.agents (seeded file.lanes b) in
    let all = restore_providers now file.updated_at file.providers agents in
    rw on
      (tell_resumed-agents all ∙ restore_providers-agents now file.updated_at file.providers agents)

-- A breaker as a scheduler starts it.
abbrev pub started : ℕ → ℕ → List (String × Option String) → Breaker
started threshold probe_ms lanes = record {
  threshold = threshold;
  probe_ms = probe_ms;
  by_agent = [];
  by_provider = [];
  agent_provider = lanes;
  notices = [];
}

-- A restart of the scheduler: a breaker with a threshold above 0 and no entries restores what another
-- wrote. Then the entry of an agent is open exactly when the old breaker had an open entry of the agent
-- whose last failure, or else its opening, or else the writing of the file, is younger than the new
-- probe interval.
pub restart_keeps_open :
    (hash : String → String) (at now : ℕ) (agent : String) (b : Breaker) (threshold probe_ms : ℕ)
    (lanes : List (String × Option String))
    → eqb threshold 0 ≡ false
    → (entry_of agent
        (restore now
          (snapshot hash at b)
          (started threshold probe_ms lanes)).breaker.by_agent).«open»
      ≡ open_and_young now probe_ms at agent b.by_agent
unfolding snapshot
restart_keeps_open hash at now agent b threshold probe_ms lanes on =
    let nb = started threshold probe_ms lanes in
    let first = seeded b.agent_provider nb in
    let file = agents_of hash b.agent_provider b.by_agent in
    let (no_agents, same_probe) = seed_lanes-same b.agent_provider nb in
    let opened = restore_agents-open now at agent file first in
    let before : own_open agent first.breaker ≡ false =
      ap (λ m. (entry_of agent m).«open») no_agents in
    ap (λ m. (entry_of agent m).«open») (restore-by_agent now (snapshot hash at b) nb on)
    ∙ opened
    ∙ (rw before (ap (λ p. file_young now p at agent file) same_probe))
    ∙ file_young-agents_of hash b.agent_provider now probe_ms at agent b.by_agent
