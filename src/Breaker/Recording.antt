-- ===== src/Breaker/Recording.antt =====
-- `record`, the end of a fire: hub/src/breaker.ts.
use dev_loop.Common.{
  ℕ, suc, String, Bool, false, not, ◌&&◌, ◌||◌, Option, none, some, List, [], ◌∷◌, ◌++◌, ◌==◌, ltb,
  leb, eqb, includes, if◌then◌else◌, get_or,
}
use dev_loop.Common.Text.{append}
use dev_loop.Common.Maps.{set, set_where, any_entry}
use dev_loop.Breaker.State.{
  Entry, fresh, Notice, Breaker, provider_scoped_classes, nonempty, flatten, notify, entry_of,
  of_provider, provider_of, end_probe, on_record, opened, closed, changed,
}
use dev_loop.Breaker.Keys.{failure_key, persisted_key}

-- A counted failure: does it continue the streak, and does the streak open the entry.
unfoldable pub count_failure : ℕ → ℕ → String → Option String → Bool → Entry → Entry
count_failure threshold at key class continues e =
    let streak = if continues then suc e.streak else 1 in
    let opens = not e.«open» && leb threshold streak in
    record e {
      key = some key;
      streak = streak;
      last_failure_at = some at;
      last_error_class = class;
      «open» = e.«open» || opens;
      opened_at = if opens then some at else e.opened_at;
    }

abbrev pub is_key : String → Option String → Bool
is_key key none = false
is_key key (some k) = key == k

unfoldable pub notify_opened : String → String → Entry → Entry → Breaker → Breaker
notify_opened agent label before after b =
    if not before.«open» && after.open then notify (opened agent label after.streak) b else b

unfoldable pub provider_failure : ℕ → String → String → Option String → String → Breaker → Breaker
unfolding notify_opened
provider_failure at agent key class p b =
    let pkey = append p (append ":" key) in
    let pe = entry_of pkey b.by_provider in
    let pe' = count_failure b.threshold at key class (is_key key pe.key) pe in
    let label = append "[provider=" (append p (append "] " key)) in
    let told = notify_opened agent label pe pe' b in
    notify (changed on_record) (record told { by_provider = set pkey pe' told.by_provider })

unfoldable pub continues_agent : (String → String) → String → Option String → Option String → Bool
continues_agent hash key class none = false
continues_agent hash key class (some k) = key == k || k == persisted_key hash key class

unfoldable pub agent_failure :
    (String → String) → ℕ → String → String → Option String → Breaker → Breaker
unfolding notify_opened continues_agent
agent_failure hash at agent key class b =
    let e = entry_of agent b.by_agent in
    let counted = count_failure b.threshold at key class (continues_agent hash key class e.key) e in
    let e' = record counted { cooldown_until = none } in
    let told = notify_opened agent key e e' b in
    notify (changed on_record) (record told { by_agent = set agent e' told.by_agent })

-- A provider that counts a failure of this class.
unfoldable pub scope_of : Option String → Option (Option String) → Option String
scope_of none provider = none
scope_of (some class) provider =
    if includes class provider_scoped_classes then nonempty (flatten provider) else none

-- A failure is counted for the provider of its scope, or else for the agent.
unfoldable pub failure_of_scope :
    (String → String) → ℕ → String → String → Option String → Option String → Breaker → Breaker
unfolding provider_failure agent_failure
failure_of_scope hash at agent key class (some p) b = provider_failure at agent key class p b
failure_of_scope hash at agent key class none b = agent_failure hash at agent key class b

unfoldable pub record_failure :
    (String → String)
    → ℕ
    → String
    → Option String
    → Option String
    → Option (Option String)
    → Breaker
    → Breaker
unfolding failure_of_scope
record_failure hash at agent class tail provider b =
    failure_of_scope hash at agent (failure_key class tail) class (scope_of class provider) b

-- An entry that a success has something to clear in.
abbrev pub is_set : Option ℕ → Bool
is_set none = false
is_set (some n) = not (eqb n 0)

abbrev pub uncleared : Entry → Bool
uncleared e = e.«open» || ltb 0 e.streak || is_set e.cooldown_until

closings : String → (String → Bool) → List (String × Entry) → List Notice
closings agent p [] = []
closings agent p ((k, e) ∷ m) =
    let rest = closings agent p m in
    if p k && e.«open» then closed agent k e.streak ∷ rest else rest

abbrev pub clear : Entry → Entry
clear e = if uncleared e then fresh else e

unfoldable pub close_agent : String → Breaker → Breaker
close_agent agent b =
    let e = entry_of agent b.by_agent in
    let told = if e.«open» then notify (closed agent (get_or e.key "") e.streak) b else b in
    record told { by_agent = set agent fresh told.by_agent }

unfoldable pub close_provider : String → Option String → Breaker → Breaker
unfolding closings
close_provider agent none b = b
close_provider agent (some p) b = record b {
  by_provider = set_where (of_provider p) clear b.by_provider;
  notices = b.notices ++ closings agent (of_provider p) b.by_provider;
}

unfoldable pub anything_to_clear : String → Option String → Breaker → Bool
anything_to_clear agent provider b = uncleared (entry_of agent b.by_agent) || elim provider [
  | none ↦ false
  | some p ↦ any_entry (λ k e. of_provider p k && uncleared e) b.by_provider
]

unfoldable pub record_success : String → Option String → Breaker × Bool → Breaker
unfolding close_agent close_provider anything_to_clear
record_success agent provider (b, changed_before) =
    let p = nonempty provider in
    let b' = close_provider agent p (close_agent agent b) in
    if changed_before || anything_to_clear agent p b then notify (changed on_record) b' else b'

-- The end of a fire as `record` is told of it.
pub record FireEnd : Type 0 where
  pub agent : String
  pub exit_code : ℕ
  pub error_class : Option String
  pub tail : Option String
  pub provider : Option (Option String)
  pub interrupted : Bool
  pub at : ℕ

unfoldable pub learn_provider : String → Option (Option String) → Breaker → Breaker
learn_provider agent none b = b
learn_provider agent (some p) b = record b { agent_provider = set agent p b.agent_provider }

unfoldable pub record_ended : (String → String) → FireEnd → Option String → Breaker × Bool → Breaker
record_ended hash f p (b, changed_before) =
    if f.interrupted
    then (if changed_before then notify (changed on_record) b else b)
    else if eqb f.exit_code 0
    then record_success f.agent p (b, changed_before)
    else record_failure hash f.at f.agent f.error_class f.tail f.provider b

-- `record`.
unfoldable pub record_fire : (String → String) → FireEnd → Breaker → Breaker
unfolding record_ended learn_provider
record_fire hash f b =
    let b' = learn_provider f.agent f.provider b in
    let p = provider_of f.agent f.provider b' in
    if eqb b.threshold 0 then b else record_ended hash f p (end_probe f.agent p b')
