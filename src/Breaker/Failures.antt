-- ===== src/Breaker/Failures.antt =====
-- One counted failure of the breaker: hub/src/breaker.ts.
use mathlib.Core.Path.{subst}
use dev_loop.Common.{
  ℕ, zero, suc, String, Bool, true, false, Option, none, some, List, [], ◌∷◌, ◌≡◌, refl, ◌∙◌, ap,
  arith, leb, eqb, get_or, inl, inr, ◌⊎◌,
}
use dev_loop.Common.Text.{append}
use dev_loop.Common.Maps.{lookup-set}
use dev_loop.Breaker.State.{Entry, fresh, Breaker, entry_of, end_probe, provider_of}
use dev_loop.Breaker.Recording.{
  FireEnd, record_fire, record_failure, learn_provider, record_ended, count_failure, agent_failure,
  provider_failure, notify_opened, continues_agent, is_key,
}
use dev_loop.Breaker.Counts.{SameCount, end_probe-Counts}

-- The fires of a list, one after the other.
unfoldable pub record_all : (String → String) → List FireEnd → Breaker → Breaker
record_all hash [] b = b
record_all hash (f ∷ fs) b = record_all hash fs (record_fire hash f b)

-- A fire that failed, and that no one interrupted.
abbrev pub Failed : FireEnd → Type 0
Failed f = (f.interrupted ≡ false) × (eqb f.exit_code 0 ≡ false)

-- An entry that counts `n` failures under a key.
pub record Counted (threshold : ℕ) (counted_key : String) (n : ℕ) (e : Entry) : Type 0 where
  pub key : e.key ≡ some counted_key
  pub streak : e.streak ≡ n
  pub is_open : e.«open» ≡ leb threshold n

count-Counted :
    (threshold at n : ℕ) (key : String) (class : Option String) (continues : Bool) (e : Entry)
    → (continues ≡ true) × (e.streak ≡ n) × (e.«open» ≡ leb threshold n)
      ⊎ (continues ≡ false) × (n ≡ 0) × (e.«open» ≡ false)
    → Counted threshold key (suc n) (count_failure threshold at key class continues e)
unfolding count_failure
count-Counted threshold at n key class continues e (inl (c, s, o)) = record {
  key = refl;
  streak = ground arith;
  is_open = ground arith;
}
count-Counted threshold at n key class continues e (inr (c, z, o)) = record {
  key = refl;
  streak = ground arith;
  is_open = ground arith;
}

-- The breaker that a failed fire is counted in.
abbrev pub before_count : FireEnd → Breaker → Breaker
before_count f b =
    let b' = learn_provider f.agent f.provider b in
    (end_probe f.agent (provider_of f.agent f.provider b') b').0

learn_provider-rest :
    (agent : String) (o : Option (Option String)) (b : Breaker)
    → let a = learn_provider agent o b in
      (a.by_agent ≡ b.by_agent) × (a.by_provider ≡ b.by_provider) × (a.threshold ≡ b.threshold)
unfolding learn_provider
learn_provider-rest agent none b = ground arith
learn_provider-rest agent (some p) b = ground arith

pub record_fire-Failed :
    (hash : String → String) (f : FireEnd) (b : Breaker)
    → Failed f
    → eqb b.threshold 0 ≡ false
    → record_fire hash f b
      ≡ record_failure hash f.at f.agent f.error_class f.tail f.provider (before_count f b)
unfolding record_fire record_ended
record_fire-Failed hash f b h t = rw (t, h.0, h.1) refl

pub agent_failure-entry :
    (hash : String → String) (at : ℕ) (agent key : String) (class : Option String) (b : Breaker)
    → let e = entry_of agent b.by_agent in
      let a = agent_failure hash at agent key class b in
      (entry_of agent a.by_agent
        ≡ record (count_failure b.threshold at key class (continues_agent hash key class e.key) e) {
          cooldown_until = none;
        })
      × (a.threshold ≡ b.threshold)
unfolding agent_failure
agent_failure-entry hash at agent key class b =
    (ap (λ o. get_or o fresh) (lookup-set agent _ _), unfold notify_opened in ground arith)

pub provider_failure-entry :
    (at : ℕ) (agent key : String) (class : Option String) (p : String) (b : Breaker)
    → let pkey = append p (append ":" key) in
      let e = entry_of pkey b.by_provider in
      let a = provider_failure at agent key class p b in
      (entry_of pkey a.by_provider ≡ count_failure b.threshold at key class (is_key key e.key) e)
      × (a.threshold ≡ b.threshold)
unfolding provider_failure
provider_failure-entry at agent key class p b = (
  ap (λ o. get_or o fresh) (lookup-set (append p (append ":" key)) _ _),
  unfold notify_opened in ground arith,
)

pub before_count-entry :
    (f : FireEnd) (b : Breaker)
    → let a = before_count f b in
      ((k : String) → SameCount (entry_of k a.by_agent) (entry_of k b.by_agent))
      × ((k : String) → SameCount (entry_of k a.by_provider) (entry_of k b.by_provider))
      × (a.threshold ≡ b.threshold)
before_count-entry f b =
    let l = learn_provider-rest f.agent f.provider b in
    let c = end_probe-Counts f.agent _ (learn_provider f.agent f.provider b) in
    (
      λ k.
          subst (λ m. SameCount (entry_of k (before_count f b).by_agent) (entry_of k m)) l.0
            (c.agents k),
      λ k.
          subst (λ m. SameCount (entry_of k (before_count f b).by_provider) (entry_of k m)) l.1
            (c.providers k),
      c.threshold ∙ l.2,
    )

-- A breaker whose entry counts `n` failures under the key, or no failure where `n` is 0.
abbrev pub CountsSoFar : ℕ → String → ℕ → Entry → Type 0
CountsSoFar threshold key zero e = (e.key ≡ none) × (e.streak ≡ 0) × (e.«open» ≡ false)
CountsSoFar threshold key (suc n) e = Counted threshold key (suc n) e

pub count-next :
    (threshold at n : ℕ) (key : String) (class : Option String) (continues : Option String → Bool)
    (e : Entry)
    → continues none ≡ false
    → continues (some key) ≡ true
    → CountsSoFar threshold key n e
    → Counted threshold key (suc n) (count_failure threshold at key class (continues e.key) e)
count-next threshold at zero key class continues e no_key same h =
    count-Counted threshold at 0 key class (continues e.key) e
      (inr (ap continues h.0 ∙ no_key, refl, h.2))
count-next threshold at (suc n) key class continues e no_key same h =
    count-Counted threshold at (suc n) key class (continues e.key) e
      (inl (ap continues h.key ∙ same, h.streak, h.is_open))

pub so_far-SameCount :
    (threshold n : ℕ) (key : String) (a b : Entry)
    → SameCount a b
    → CountsSoFar threshold key n b
    → CountsSoFar threshold key n a
so_far-SameCount threshold zero key a b s h = (s.key ∙ h.0, s.streak ∙ h.1, s.is_open ∙ h.2)
so_far-SameCount threshold (suc n) key a b s h = record {
  key = s.key ∙ h.key;
  streak = s.streak ∙ h.streak;
  is_open = s.is_open ∙ h.is_open;
}
