-- ===== src/Rotation/Agents.antt =====
-- The rotations of several agents share one state: hub/src/rotation.ts.
use dev_loop.Common.{
  ℕ, suc, String, false, Option, none, some, List, [], ◌∷◌, ◌==◌, ◌≡◌, ◌∙◌, refl, sym, ap, is_nil,
  get_or, if◌then◌else◌, inl, inr, Bool-cases, eq_iff,
}
use mathlib.Core.Path.{subst}
use dev_loop.Common.Maps.{lookup, lookup-set, lookup-set-other}
use dev_loop.Rotation.{
  Candidate, CursorMap, SchedulerState, sort_candidates, advance, smooth_wrr_step, pick_and_advance,
  keep_cursors,
}
use dev_loop.Rotation.Fairness.{fires}

-- Fires of agents in any order: who fired with which pick, and the state that is left.
pub agents_fire :
    List String → List Candidate → SchedulerState → List (String × Option String) × SchedulerState
agents_fire [] cs state = ([], state)
agents_fire (agent ∷ agents) cs state =
    let (pick, state') = pick_and_advance cs agent state in
    let (trace, last) = agents_fire agents cs state' in ((agent, pick) ∷ trace, last)

-- The picks of one agent.
abbrev pub picks_of : String → List (String × Option String) → List (Option String)
picks_of a [] = []
picks_of a ((agent, pick) ∷ trace) =
    let rest = picks_of a trace in if agent == a then pick ∷ rest else rest

abbrev pub turns : String → List String → ℕ
turns a [] = 0
turns a (agent ∷ agents) = let rest = turns a agents in if agent == a then suc rest else rest

abbrev pub cursors_of : String → SchedulerState → CursorMap
cursors_of a state = get_or (lookup a state) []

-- One fire of an agent, on its own cursors.
own_fire :
    (cs : List Candidate) (a : String) (state : SchedulerState)
    → is_nil (sort_candidates cs) ≡ false
    → ((pick_and_advance cs a state).0 ≡ (smooth_wrr_step cs (cursors_of a state)).0)
      × (cursors_of a (pick_and_advance cs a state).1 ≡ (smooth_wrr_step cs (cursors_of a state)).1)
unfolding pick_and_advance smooth_wrr_step
own_fire cs a state some_left = of_ordered (sort_candidates cs) some_left
  where
    of_ordered :
        (s : List Candidate)
        → is_nil s ≡ false
        → ((keep_cursors a state (advance s (cursors_of a state))).0
            ≡ (advance s (cursors_of a state)).0)
          × (cursors_of a (keep_cursors a state (advance s (cursors_of a state))).1
              ≡ (advance s (cursors_of a state)).1)
    of_ordered [] h = absurd (cc)
    of_ordered (c ∷ ds) h =
        (refl, ap (λ o. get_or o []) (lookup-set a (advance (c ∷ ds) (cursors_of a state)).1 state))

-- A fire of another agent.
other_fire :
    (cs : List Candidate) (a b : String) (state : SchedulerState)
    → (b == a) ≡ false
    → cursors_of a (pick_and_advance cs b state).1 ≡ cursors_of a state
unfolding pick_and_advance
other_fire cs a b state other = kept (smooth_wrr_step cs (cursors_of b state))
  where
    kept :
        (r : Option String × CursorMap)
        → cursors_of a (keep_cursors b state r).1 ≡ cursors_of a state
    kept (none, cur) = refl
    kept (some p, cur) = ap (λ o. get_or o []) (lookup-set-other a b cur state other)

-- What is left to show of a run, of the picks and of the cursors behind it.
abbrev Alone :
    List Candidate → List (Option String) → CursorMap → List (Option String) × CursorMap → Type 0
Alone cs picks last alone = (picks ≡ alone.0) × (last ≡ alone.1)

own_turn :
    (agents : List String) (cs : List Candidate) (state : SchedulerState) (a : String)
    → is_nil (sort_candidates cs) ≡ false
    → Alone cs
        (picks_of a (agents_fire agents cs (pick_and_advance cs a state).1).0)
        (cursors_of a (agents_fire agents cs (pick_and_advance cs a state).1).1)
        (fires (turns a agents) cs (cursors_of a (pick_and_advance cs a state).1))
    → Alone cs
        ((pick_and_advance cs a state).0
          ∷ picks_of a (agents_fire agents cs (pick_and_advance cs a state).1).0)
        (cursors_of a (agents_fire agents cs (pick_and_advance cs a state).1).1)
        (fires (suc (turns a agents)) cs (cursors_of a state))
unfolding fires
own_turn agents cs state a h later =
    let (pick, cursors) = own_fire cs a state h in
    let (picks, last) =
      subst
        (λ x.
          Alone cs (picks_of a (agents_fire agents cs (pick_and_advance cs a state).1).0)
            (cursors_of a (agents_fire agents cs (pick_and_advance cs a state).1).1)
            (fires (turns a agents) cs x))
        cursors later in
    (
      ap (λ p. p ∷ picks_of a (agents_fire agents cs (pick_and_advance cs a state).1).0) pick
          ∙ ap (λ ps. (smooth_wrr_step cs (cursors_of a state)).0 ∷ ps) picks,
      last,
    )

-- Where there are candidates, the shared state gives each agent a rotation of its own: over any
-- interleaving of fires of any agents, the picks of an agent are those that it makes alone from its own
-- cursors, as often as it fires, and its cursors are those that these leave.
pub agents_rotate_alone :
    (agents : List String) (cs : List Candidate) (state : SchedulerState) (a : String)
    → is_nil (sort_candidates cs) ≡ false
    → (picks_of a (agents_fire agents cs state).0
        ≡ (fires (turns a agents) cs (cursors_of a state)).0)
      × (cursors_of a (agents_fire agents cs state).1
          ≡ (fires (turns a agents) cs (cursors_of a state)).1)
unfolding agents_fire fires
agents_rotate_alone [] cs state a h = (refl, refl)
agents_rotate_alone (b ∷ agents) cs state a h = elim (Bool-cases (b == a)) [
  | inl same ↦
      let mine =
        own_turn agents cs state a h
          (agents_rotate_alone agents cs (pick_and_advance cs a state).1 a h) in
      rw same (
        subst
          (λ j.
            Alone cs
              ((pick_and_advance cs j state).0
                ∷ picks_of a (agents_fire agents cs (pick_and_advance cs j state).1).0)
              (cursors_of a (agents_fire agents cs (pick_and_advance cs j state).1).1)
              (fires (suc (turns a agents)) cs (cursors_of a state)))
          (sym ((eq_iff b a).0 same)) mine)
  | inr other ↦ rw other (
      subst
        (λ x.
          Alone cs (picks_of a (agents_fire agents cs (pick_and_advance cs b state).1).0)
            (cursors_of a (agents_fire agents cs (pick_and_advance cs b state).1).1)
            (fires (turns a agents) cs x))
        (other_fire cs a b state other)
        (agents_rotate_alone agents cs (pick_and_advance cs b state).1 a h))
]
