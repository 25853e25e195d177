-- ===== src/Breaker/Streaks.antt =====
-- What a run of failures does to the breaker: hub/src/breaker.ts.
use mathlib.Core.Path.{subst}
use text.Mathlib.TextPositions.{eq_refl}
use dev_loop.Common.{
  ℕ, zero, suc, ◌+◌, String, false, none, List, [], ◌∷◌, ◌≡◌, refl, ◌∙◌, ap, sym, arith, All,
  length, leb, eqb,
}
use dev_loop.Breaker.State.{Entry, fresh, Breaker, entry_of}
use dev_loop.Breaker.Recording.{
  FireEnd, record_fire, record_failure, failure_of_scope, scope_of, count_failure, continues_agent,
  agent_failure,
}
use dev_loop.Breaker.Keys.{failure_key}
use dev_loop.Breaker.Failures.{
  record_all, Failed, Counted, CountsSoFar, before_count, record_fire-Failed, agent_failure-entry,
  before_count-entry, count-next, so_far-SameCount,
}

-- A failure of one lane under one key.
abbrev pub Repeats : String → String → FireEnd → Type 0
Repeats agent key f =
    Failed f
    × (f.agent ≡ agent)
    × (failure_key f.error_class f.tail ≡ key)
    × (scope_of f.error_class f.provider ≡ none)

module _ (hash : String → String) (agent key : String) where
  repeat-Counted :
      (f : FireEnd) (b : Breaker) (n : ℕ)
      → Repeats agent key f
      → eqb b.threshold 0 ≡ false
      → CountsSoFar b.threshold key n (entry_of agent b.by_agent)
      → let a = record_fire hash f b in
        Counted b.threshold key (suc n) (entry_of agent a.by_agent) × (a.threshold ≡ b.threshold)
  unfolding record_failure failure_of_scope continues_agent
  repeat-Counted f b n (failed, who, k, scope) t h =
      let before = before_count-entry f b in
      let b1 = before_count f b in
      let e = entry_of agent b1.by_agent in
      let at = agent_failure-entry hash f.at agent key f.error_class b1 in
      let so_far =
        so_far-SameCount b.threshold n key e (entry_of agent b.by_agent) (before.0 agent) h in
      let c =
        count-next b.threshold f.at n key f.error_class (continues_agent hash key f.error_class) e
          refl (ground (arith, eq_refl key)) so_far in
      let is_agent : record_fire hash f b ≡ agent_failure hash f.at agent key f.error_class b1 =
        record_fire-Failed hash f b failed t
        ∙ ap
            (λ o.
              failure_of_scope hash f.at f.agent (failure_key f.error_class f.tail) f.error_class o
                b1)
            scope
        ∙ rw (who, k) refl in
      let after : entry_of agent (record_fire hash f b).by_agent ≡ _ =
        ap (λ (a : Breaker). entry_of agent a.by_agent) is_agent ∙ at.0 in
      let same : (record_fire hash f b).threshold ≡ b.threshold =
        ap (λ (a : Breaker). a.threshold) is_agent ∙ at.1 ∙ before.2 in
      let counted =
        subst
          (λ t. Counted b.threshold key (suc n) (
            count_failure t f.at key f.error_class (continues_agent hash key f.error_class e.key)
              e))
          (sym before.2) c in
      (
        record {
          key = ap (λ (x : Entry). x.key) after ∙ counted.key;
          streak = ap (λ (x : Entry). x.streak) after ∙ counted.streak;
          is_open = ap (λ (x : Entry). x.«open») after ∙ counted.is_open;
        },
        same,
      )

  agent_run-CountsSoFar :
      (fs : List FireEnd) (b : Breaker) (n : ℕ)
      → All (Repeats agent key) fs
      → eqb b.threshold 0 ≡ false
      → CountsSoFar b.threshold key n (entry_of agent b.by_agent)
      → CountsSoFar b.threshold key (n + length fs) (entry_of agent (record_all hash fs b).by_agent)
  unfolding record_all
  agent_run-CountsSoFar [] b n r t h =
      subst (λ m. CountsSoFar b.threshold key m (entry_of agent b.by_agent)) (omega arith) h
  agent_run-CountsSoFar (f ∷ fs) b n r t h =
      let (c, same) = repeat-Counted f b n r.0 t h in
      let next = agent_run-CountsSoFar fs (record_fire hash f b) (suc n) r.1 (rw same t) (
        subst (λ t. CountsSoFar t key (suc n) (entry_of agent (record_fire hash f b).by_agent))
          (sym same) c) in
      subst
        (λ m.
          CountsSoFar m key (n + length (f ∷ fs))
            (entry_of agent (record_all hash (f ∷ fs) b).by_agent))
        same
        (subst
          (λ m.
            CountsSoFar (record_fire hash f b).threshold key m
              (entry_of agent (record_all hash (f ∷ fs) b).by_agent))
          (omega arith) next)

  -- A run of failures of one agent under one key, from a breaker without a streak of the agent,
  -- counts them all, and the agent's entry is open from the threshold on.
  pub agent_run-streak :
      (fs : List FireEnd) (b : Breaker)
      → All (Repeats agent key) fs
      → eqb b.threshold 0 ≡ false
      → entry_of agent b.by_agent ≡ fresh
      → let e = entry_of agent (record_all hash fs b).by_agent in
        (e.streak ≡ length fs) × (e.«open» ≡ leb b.threshold (length fs))
  agent_run-streak fs b r t clean =
      let c = agent_run-CountsSoFar fs b 0 r t (
        ap (λ (x : Entry). x.key) clean,
        ap (λ (x : Entry). x.streak) clean,
        ap (λ (x : Entry). x.«open») clean,
      ) in
      go (length fs) (entry_of agent (record_all hash fs b).by_agent) t (
        subst (λ n. CountsSoFar b.threshold key n (entry_of agent (record_all hash fs b).by_agent))
          (omega arith) c)
    where
      go :
          (n : ℕ) (e : Entry)
          → eqb b.threshold 0 ≡ false
          → CountsSoFar b.threshold key n e
          → (e.streak ≡ n) × (e.«open» ≡ leb b.threshold n)
      go zero e t c = (c.1, c.2 ∙ ground arith)
      go (suc n) e t c = (c.streak, c.is_open)
