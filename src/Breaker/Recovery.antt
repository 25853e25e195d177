-- ===== src/Breaker/Recovery.antt =====
-- A successful fire, an interrupted one, and the cadence of a lane: hub/src/breaker.ts.
use dev_loop.Common.{
  ℕ, ◌≤◌, String, Bool, true, false, ◌&&◌, ◌||◌, Option, none, some, List, [], ◌∷◌, ◌≡◌, refl, ◌==◌,
  ◌∙◌, ap, sym, arith, eq_iff, ◌+◌, eqb, if◌then◌else◌, get_or, ◌or_else◌, Bool-cases, inl, inr,
  ◌⊎◌,
}
use dev_loop.Common.Maps.{lookup-set-other, lookup, set, set_where, any_entry, lookup-set}
use dev_loop.Breaker.State.{
  Entry, fresh, Breaker, Notice, changed, on_record, notify, entry_of, nonempty, flatten,
  provider_of, end_probe, of_provider,
}
use dev_loop.Breaker.Recording.{
  FireEnd, record_fire, record_success, record_ended, learn_provider, close_agent, close_provider,
  anything_to_clear, clear,
}
use dev_loop.Breaker.Lanes.{is_open, open_through, interval_for, longer, probed_at}
use dev_loop.Breaker.Counts.{end_probe-Counts}

cleared-any_entry :
    (p : String) (m : List (String × Entry))
    → any_entry (λ k e. of_provider p k && e.«open») (set_where (of_provider p) clear m) ≡ false
unfolding set_where
cleared-any_entry p [] = refl
cleared-any_entry p ((k, e) ∷ m) = ground (arith, cleared-any_entry p m)

close_agent-rest :
    (agent : String) (b : Breaker)
    → let a = close_agent agent b in
      (entry_of agent a.by_agent ≡ fresh)
      × (a.by_provider ≡ b.by_provider)
      × (a.agent_provider ≡ b.agent_provider)
unfolding close_agent
close_agent-rest agent b =
    (ap (λ o. get_or o fresh) (lookup-set agent fresh _), ground arith, ground arith)

-- What a success leaves: a fresh entry, and no open entry of the provider.
success_clears :
    (agent : String) (q : Option String) (b : Breaker)
    → let a = close_provider agent q (close_agent agent b) in
      (entry_of agent a.by_agent ≡ fresh)
      × (open_through q a ≡ false)
      × (a.agent_provider ≡ b.agent_provider)
unfolding close_provider open_through
success_clears agent none b = let c = close_agent-rest agent b in (c.0, refl, c.2)
success_clears agent (some p) b =
    let c = close_agent-rest agent b in
    (c.0, cleared-any_entry p (close_agent agent b).by_provider, c.2)

provider_of-learned :
    (agent : String) (o : Option (Option String)) (b : Breaker)
    → let a = learn_provider agent o b in
      provider_of agent o a ≡ flatten (lookup agent a.agent_provider)
unfolding learn_provider provider_of
provider_of-learned agent none b = refl
provider_of-learned agent (some p) b =
    let l = lookup-set agent p b.agent_provider in rw l (either p)
  where
    either : (p : Option String) → (p or_else p) ≡ p
    either none = refl
    either (some x) = refl

-- A breaker in which the agent and its provider have nothing open, with the lanes as they were.
abbrev Recovered : String → Option String → List (String × Option String) → Breaker → Type 0
Recovered agent q lanes a =
    (entry_of agent a.by_agent ≡ fresh) × (open_through q a ≡ false) × (a.agent_provider ≡ lanes)

told_or_not :
    (agent : String) (q : Option String) (lanes : List (String × Option String)) (a : Breaker)
    (n : Notice) (tell : Bool)
    → Recovered agent q lanes a
    → Recovered agent q lanes (if tell then notify n a else a)
unfolding open_through
told_or_not agent q lanes a n false h = h
told_or_not agent none lanes a n true h = h
told_or_not agent (some p) lanes a n true h = h

success-Recovered :
    (agent : String) (q : Option String) (b : Breaker) (c : Bool)
    → Recovered agent (nonempty q) b.agent_provider (record_success agent q (b, c))
unfolding record_success
success-Recovered agent q b c =
    told_or_not agent (nonempty q) b.agent_provider
      (close_provider agent (nonempty q) (close_agent agent b)) (changed on_record)
      (c || anything_to_clear agent (nonempty q) b) (success_clears agent (nonempty q) b)

-- A fire that exits with 0 uninterrupted leaves its lane closed, through its own entry and through
-- every entry of its provider.
pub success-closes :
    (hash : String → String) (f : FireEnd) (b : Breaker)
    → eqb b.threshold 0 ≡ false
    → f.interrupted ≡ false
    → eqb f.exit_code 0 ≡ true
    → is_open f.agent (record_fire hash f b) ≡ false
unfolding record_fire record_ended is_open
success-closes hash f b t i x =
    let b1 = learn_provider f.agent f.provider b in
    let p = provider_of f.agent f.provider b1 in
    let (b2, c) = end_probe f.agent p b1 in
    let counts = end_probe-Counts f.agent p b1 in
    let r = success-Recovered f.agent p b2 c in
    let ended : record_fire hash f b ≡ record_success f.agent p (b2, c) = rw (t, i, x) refl in
    let lane : flatten (lookup f.agent (record_success f.agent p (b2, c)).agent_provider) ≡ p =
      ap (λ m. flatten (lookup f.agent m)) (r.2 ∙ counts.lanes)
      ∙ sym (provider_of-learned f.agent f.provider b) in
    let a = record_success f.agent p (b2, c) in
    let own : (entry_of f.agent a.by_agent).«open» ≡ false = ap (λ (e : Entry). e.«open») r.0 in
    let through : open_through (nonempty (flatten (lookup f.agent a.agent_provider))) a ≡ false =
      ap (λ o. open_through (nonempty o) a) lane ∙ r.1 in
    ap (is_open f.agent) ended ∙ rw (own) through

set-open :
    (agent other : String) (e : Entry) (m : List (String × Entry))
    → e.«open» ≡ (entry_of agent m).«open»
    → (entry_of other (set agent e m)).«open» ≡ (entry_of other m).«open»
set-open agent other e m h = elim (Bool-cases (agent == other)) [
  | inl same ↦
      let is : agent ≡ other = (eq_iff agent other).0 same in
      ap (λ k. (entry_of other (set k e m)).«open») is
      ∙ ap (λ o. (get_or o fresh).«open») (lookup-set other e m)
      ∙ h
      ∙ ap (λ k. (entry_of k m).«open») is
  | inr differs ↦ ap (λ o. (get_or o fresh).«open») (lookup-set-other other agent e m differs)
]

open_through-same :
    (o : Option String) (a b : Breaker)
    → a.by_provider ≡ b.by_provider
    → open_through o a ≡ open_through o b
unfolding open_through
open_through-same none a b h = refl
open_through-same (some p) a b h = ap (any_entry (λ k e. of_provider p k && e.«open»)) h

-- A breaker that differs in an agent's entry, which is open as it was, has the same lanes open.
same_lanes :
    (agent other : String) (e : Entry) (a b : Breaker)
    → a.by_agent ≡ set agent e b.by_agent
    → e.«open» ≡ (entry_of agent b.by_agent).«open»
    → a.by_provider ≡ b.by_provider
    → a.agent_provider ≡ b.agent_provider
    → is_open other a ≡ is_open other b
unfolding is_open
same_lanes agent other e a b agents h providers lanes =
    let own : (entry_of other a.by_agent).«open» ≡ (entry_of other b.by_agent).«open» =
      ap (λ m. (entry_of other m).«open») agents ∙ set-open agent other e b.by_agent h in
    let through =
      ap (λ m. open_through (nonempty (flatten (lookup other m))) a) lanes
      ∙ open_through-same (nonempty (flatten (lookup other b.agent_provider))) a b providers in
    rw own (ap (λ x. (entry_of other b.by_agent).«open» || x) through)

-- An interval for a lane is the base interval while the lane is closed, and else the longer of the
-- base interval and the probe interval; asking for it opens and closes no lane.
pub interval_for-lane :
    (agent other : String) (base_ms now : ℕ) (b : Breaker)
    → let (a, ms) = interval_for agent base_ms now b in
      ((is_open agent b ≡ false) × (ms ≡ base_ms)
        ⊎ (is_open agent b ≡ true)
          × (base_ms ≤ ms)
          × (b.probe_ms ≤ ms)
          × ((ms ≡ base_ms) ⊎ (ms ≡ b.probe_ms)))
      × (is_open other a ≡ is_open other b)
unfolding interval_for
interval_for-lane agent other base_ms now b = (
  ground arith,
  elim (Bool-cases (is_open agent b)) [
    | inl yes_it ↦ rw yes_it (
        same_lanes agent other
          (probed_at (now + longer base_ms b.probe_ms) (entry_of agent b.by_agent)) _ b refl refl
          refl refl)
    | inr no_it ↦ rw no_it refl
  ],
)
