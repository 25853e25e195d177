-- ===== src/Breaker/Counts.antt =====
-- What the end of a probe leaves of the breaker's counts: hub/src/breaker.ts.
use mathlib.Core.Path.{subst}
use dev_loop.Common.{
  String, Bool, Option, none, some, List, [], ◌∷◌, ◌≡◌, refl, ◌==◌, ◌∙◌, ap, sym, arith, eq_iff,
  Bool-cases, inl, inr,
}
use dev_loop.Common.Maps.{lookup, set, set_where, lookup-set, lookup-set-other}
use dev_loop.Breaker.State.{
  Entry, fresh, Breaker, entry_of, ended, end_agent, end_provider, end_probe, nonempty, of_provider,
}

-- Two entries that count the same.
pub record SameCount (a b : Entry) : Type 0 where
  pub key : a.key ≡ b.key
  pub streak : a.streak ≡ b.streak
  pub is_open : a.«open» ≡ b.«open»

SameCount-refl : (e : Entry) → SameCount e e
SameCount-refl e = record { key = refl; streak = refl; is_open = refl }

SameCount-trans : {a b c : Entry} → SameCount a b → SameCount b c → SameCount a c
SameCount-trans p q = record {
  key = p.key ∙ q.key;
  streak = p.streak ∙ q.streak;
  is_open = p.is_open ∙ q.is_open;
}

ended-SameCount : (e : Entry) → SameCount (ended e) e
ended-SameCount e = record { key = refl; streak = refl; is_open = refl }

same_map :
    (k : String) (m n : List (String × Entry)) → m ≡ n → SameCount (entry_of k m) (entry_of k n)
same_map k m n e = subst (λ x. SameCount (entry_of k m) (entry_of k x)) e (SameCount-refl _)

entry_of-set_where :
    (k : String) (p : String → Bool) (f : Entry → Entry) (m : List (String × Entry))
    → ((e : Entry) → SameCount (f e) e)
    → SameCount (entry_of k (set_where p f m)) (entry_of k m)
unfolding set_where
entry_of-set_where k p f [] h = SameCount-refl fresh
entry_of-set_where k p f ((k1, e) ∷ m) h = elim (Bool-cases (k1 == k)) [
  | inl same ↦ elim (Bool-cases (p k1)) [
    | inl yes_it ↦ rw (same, yes_it) (h e)
    | inr no_it ↦ rw (same, no_it) (SameCount-refl e)
  ]
  | inr other ↦ rw other (entry_of-set_where k p f m h)
]

end_agent_found :
    (agent k : String) (b : Breaker) (o : Option Entry)
    → lookup agent b.by_agent ≡ o
    → SameCount (entry_of k (end_agent agent o b).0.by_agent) (entry_of k b.by_agent)
unfolding end_agent
end_agent_found agent k b none h = SameCount-refl _
end_agent_found agent k b (some e) h = elim (Bool-cases e.probe_in_flight) [
  | inr no_it ↦ rw no_it (SameCount-refl _)
  | inl yes_it ↦ elim (Bool-cases (agent == k)) [
    | inr other ↦
        rw (yes_it, lookup-set-other k agent (ended e) b.by_agent other) (SameCount-refl _)
    | inl same ↦
        let found : lookup k b.by_agent ≡ some e =
          ap (λ x. lookup x b.by_agent) (sym ((eq_iff agent k).0 same)) ∙ h in
        let set_it : lookup k (set agent (ended e) b.by_agent) ≡ some (ended e) =
          ap (λ x. lookup k (set x (ended e) b.by_agent)) ((eq_iff agent k).0 same)
          ∙ lookup-set k (ended e) b.by_agent in
        rw (yes_it, set_it, found) (ended-SameCount e)
  ]
]

-- The end of a probe changes no count: of the agents first, of the providers second.
pub record Counts (a b : Breaker) : Type 0 where
  pub agents : (k : String) → SameCount (entry_of k a.by_agent) (entry_of k b.by_agent)
  pub providers : (k : String) → SameCount (entry_of k a.by_provider) (entry_of k b.by_provider)
  pub threshold : a.threshold ≡ b.threshold
  pub lanes : a.agent_provider ≡ b.agent_provider

end_agent-rest :
    (agent : String) (b : Breaker) (o : Option Entry)
    → let a = (end_agent agent o b).0 in
      (a.by_provider ≡ b.by_provider)
      × (a.threshold ≡ b.threshold)
      × (a.agent_provider ≡ b.agent_provider)
unfolding end_agent
end_agent-rest agent b none = ground arith
end_agent-rest agent b (some e) = ground arith

end_provider-Counts :
    (o : Option String) (b : Breaker) (c : Bool) → Counts (end_provider o (b, c)).0 b
unfolding end_provider
end_provider-Counts none b c = record {
  agents = λ k. SameCount-refl _;
  providers = λ k. SameCount-refl _;
  threshold = refl;
  lanes = refl;
}
end_provider-Counts (some p) b c = record {
  agents = λ k. SameCount-refl _;
  providers = λ k. entry_of-set_where k (of_provider p) ended b.by_provider ended-SameCount;
  threshold = refl;
  lanes = refl;
}

pub end_probe-Counts :
    (agent : String) (p : Option String) (b : Breaker) → Counts (end_probe agent p b).0 b
unfolding end_probe
end_probe-Counts agent p b =
    let (a, c) = end_agent agent (lookup agent b.by_agent) b in
    let first = λ (k : String). end_agent_found agent k b (lookup agent b.by_agent) refl in
    let rest = end_agent-rest agent b (lookup agent b.by_agent) in
    let last = end_provider-Counts (nonempty p) a c in
    record {
      agents = λ k. SameCount-trans (last.agents k) (first k);
      providers = λ k. SameCount-trans (last.providers k) (same_map k _ _ rest.0);
      threshold = last.threshold ∙ rest.1;
      lanes = last.lanes ∙ rest.2;
    }
