-- ===== src/Breaker/Outages.antt =====
-- What a provider's outage does to every lane on it: hub/src/breaker.ts.
use mathlib.Core.Path.{subst}
use text.Mathlib.TextPositions.{eq_refl}
use dev_loop.Common.{
  ℕ, zero, suc, ◌+◌, ◌≤◌, String, true, false, ◌&&◌, some, List, [], ◌∷◌, ◌≡◌, refl, ◌==◌, ◌∙◌, ap,
  sym, arith, eq_iff, All, length, eqb, if◌then◌else◌, get_or, Bool-cases, inl, inr, includes,
}
use dev_loop.Common.Text.{append, is_prefix}
use dev_loop.Common.Maps.{lookup, any_entry}
use dev_loop.Breaker.State.{
  Entry, fresh, Breaker, entry_of, nonempty, flatten, of_provider, provider_scoped_classes,
}
use dev_loop.Breaker.Recording.{
  FireEnd, record_fire, record_failure, failure_of_scope, scope_of, is_key, count_failure,
  provider_failure,
}
use dev_loop.Breaker.Keys.{failure_key}
use dev_loop.Breaker.Lanes.{is_open, open_through}
use dev_loop.Breaker.Failures.{
  record_all, Failed, Counted, CountsSoFar, before_count, record_fire-Failed,
  provider_failure-entry, before_count-entry, count-next, so_far-SameCount,
}

-- A failure of any lane on a provider, of a class that is the provider's.
abbrev pub FailsOn : String → String → FireEnd → Type 0
FailsOn p class f =
    Failed f × (f.error_class ≡ some class) × (nonempty (flatten f.provider) ≡ some p)

abbrev pub provider_key : String → String → String
provider_key p class = append p (append ":" class)

is_prefix-append : (s t : String) → is_prefix s (append s t) ≡ true
unfolding is_prefix
is_prefix-append String.[] t = refl
is_prefix-append (String.◌∷◌ c s) t = ground (arith, is_prefix-append s t)

append_assoc : (s t u : String) → append (append s t) u ≡ append s (append t u)
append_assoc String.[] t u = refl
append_assoc (String.◌∷◌ c s) t u = ap (String.◌∷◌ c) (append_assoc s t u)

of_provider_key : (p rest : String) → of_provider p (append p (append ":" rest)) ≡ true
of_provider_key p rest =
    ap (is_prefix (append p ":")) (sym (append_assoc p ":" rest))
    ∙ is_prefix-append (append p ":") rest

any_open_entry :
    (p k : String) (m : List (String × Entry))
    → of_provider p k ≡ true
    → (entry_of k m).«open» ≡ true
    → any_entry (λ k e. of_provider p k && e.«open») m ≡ true
any_open_entry p k [] h o = absurd (cc)
any_open_entry p k ((k1, e) ∷ m) h o = elim (Bool-cases (k1 == k)) [
  | inl same ↦
      let at : of_provider p k1 ≡ true = ap (of_provider p) ((eq_iff k1 k).0 same) ∙ h in
      let here : e.«open» ≡ true =
        ap (λ b. (get_or (if b then some e else lookup k m) fresh).«open») (sym same) ∙ o in
      rw (at, here) refl
  | inr other ↦
      let later =
        any_open_entry p k m h
          (ap (λ b. (get_or (if b then some e else lookup k m) fresh).«open») (sym other) ∙ o) in
      ground (arith, later)
]

so_far_open :
    (threshold n : ℕ) (key : String) (e : Entry)
    → eqb threshold 0 ≡ false
    → threshold ≤ n
    → CountsSoFar threshold key n e
    → e.«open» ≡ true
so_far_open threshold zero key e t le c = absurd (ground arith)
so_far_open threshold (suc n) key e t le c = ground (arith, c.is_open)

module _ (hash : String → String) (p class : String)
    (scoped : includes class provider_scoped_classes ≡ true) where
  scope_of-outage : (f : FireEnd) → FailsOn p class f → scope_of f.error_class f.provider ≡ some p
  scope_of-outage f (failed, c, on) =
      ap (λ o. scope_of o f.provider) c ∙ unfold scope_of in (rw (scoped) on)

  outage-Counted :
      (f : FireEnd) (b : Breaker) (n : ℕ)
      → FailsOn p class f
      → eqb b.threshold 0 ≡ false
      → CountsSoFar b.threshold class n (entry_of (provider_key p class) b.by_provider)
      → let a = record_fire hash f b in
        Counted b.threshold class (suc n) (entry_of (provider_key p class) a.by_provider)
        × (a.threshold ≡ b.threshold)
  unfolding record_failure failure_of_scope failure_key
  outage-Counted f b n on t h =
      let (failed, c_eq, provider) = on in
      let pkey = provider_key p class in
      let before = before_count-entry f b in
      let b1 = before_count f b in
      let e = entry_of pkey b1.by_provider in
      let at = provider_failure-entry f.at f.agent class (some class) p b1 in
      let so_far =
        so_far-SameCount b.threshold n class e (entry_of pkey b.by_provider) (before.1 pkey) h in
      let c =
        count-next b.threshold f.at n class (some class) (is_key class) e refl (eq_refl class)
          so_far in
      let is_provider : record_fire hash f b
          ≡ provider_failure f.at f.agent class (some class) p b1 =
        record_fire-Failed hash f b failed t
        ∙ ap
            (λ o.
              failure_of_scope hash f.at f.agent (failure_key f.error_class f.tail) f.error_class o
                b1)
            (scope_of-outage f on)
        ∙ ap (λ o. failure_of_scope hash f.at f.agent (failure_key o f.tail) o (some p) b1) c_eq in
      let after : entry_of pkey (record_fire hash f b).by_provider ≡ _ =
        ap (λ (a : Breaker). entry_of pkey a.by_provider) is_provider ∙ at.0 in
      let same : (record_fire hash f b).threshold ≡ b.threshold =
        ap (λ (a : Breaker). a.threshold) is_provider ∙ at.1 ∙ before.2 in
      let counted =
        subst
          (λ t.
            Counted b.threshold class (suc n)
              (count_failure t f.at class (some class) (is_key class e.key) e))
          (sym before.2) c in
      (
        record {
          key = ap (λ (x : Entry). x.key) after ∙ counted.key;
          streak = ap (λ (x : Entry). x.streak) after ∙ counted.streak;
          is_open = ap (λ (x : Entry). x.«open») after ∙ counted.is_open;
        },
        same,
      )

  outage_run-CountsSoFar :
      (fs : List FireEnd) (b : Breaker) (n : ℕ)
      → All (FailsOn p class) fs
      → eqb b.threshold 0 ≡ false
      → CountsSoFar b.threshold class n (entry_of (provider_key p class) b.by_provider)
      → CountsSoFar b.threshold class
          (n + length fs)
          (entry_of (provider_key p class) (record_all hash fs b).by_provider)
  unfolding record_all
  outage_run-CountsSoFar [] b n r t h =
      subst (λ m. CountsSoFar b.threshold class m (entry_of (provider_key p class) b.by_provider))
        (omega arith) h
  outage_run-CountsSoFar (f ∷ fs) b n r t h =
      let (c, same) = outage-Counted f b n r.0 t h in
      let last = entry_of (provider_key p class) (record_all hash (f ∷ fs) b).by_provider in
      let next = outage_run-CountsSoFar fs (record_fire hash f b) (suc n) r.1 (rw same t) (
        subst
          (λ t.
            CountsSoFar t class (suc n)
              (entry_of (provider_key p class) (record_fire hash f b).by_provider))
          (sym same) c) in
      subst (λ m. CountsSoFar m class (n + length (f ∷ fs)) last) same
        (subst (λ m. CountsSoFar (record_fire hash f b).threshold class m last) (omega arith) next)

  -- An outage that reaches the threshold, by fires of any lanes, opens every lane on the provider.
  pub outage_opens_lanes :
      (fs : List FireEnd) (b : Breaker) (agent : String)
      → All (FailsOn p class) fs
      → eqb b.threshold 0 ≡ false
      → entry_of (provider_key p class) b.by_provider ≡ fresh
      → b.threshold ≤ length fs
      → let a = record_all hash fs b in
        nonempty (flatten (lookup agent a.agent_provider)) ≡ some p → is_open agent a ≡ true
  unfolding is_open open_through
  outage_opens_lanes fs b agent r t clean le lane =
      let a = record_all hash fs b in
      let c = outage_run-CountsSoFar fs b 0 r t (
        ap (λ (x : Entry). x.key) clean,
        ap (λ (x : Entry). x.streak) clean,
        ap (λ (x : Entry). x.«open») clean,
      ) in
      let is_open_there =
        so_far_open b.threshold (0 + length fs) class
          (entry_of (provider_key p class) a.by_provider) t (omega (arith, le)) c in
      let any_open =
        any_open_entry p (provider_key p class) a.by_provider (of_provider_key p class)
          is_open_there in
      ground (arith, ap (λ o. open_through o a) lane, any_open)
