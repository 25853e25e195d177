-- ===== src/Rotation.antt =====
-- The rotation of the scheduler over projects: hub/src/rotation.ts. Weights are whole numbers.
pub mod Step
pub mod Balance
pub mod Floor
pub mod Fairness
pub mod Shares
pub mod Agents
pub mod Examples
use dev_loop.Common.{
  ℕ, ◌+◌, String, Bool, true, false, not, ◌&&◌, Option, none, some, List, [], ◌∷◌, ◌==◌, map,
  filter, ltb, le_text, sort_texts, get_or, if◌then◌else◌,
}
use dev_loop.Common.Maps.{lookup, set}
use dev_loop.Common.Int.{ℤ, pos, ◌+ℤ◌, ◌-ℤ◌, ltb_ℤ}

pub record Candidate : Type 0 where
  pub key : String
  pub weight : ℕ

-- `CursorMap`: the current weight of each project.
abbrev pub CursorMap : Type 0
CursorMap = List (String × ℤ)

-- An entry of `ws.file.projects`, with its optional fields.
pub record ProjectEntry : Type 0 where
  pub key : String
  pub enabled : Option Bool
  pub weight : Option ℕ
  pub scratch : Bool

abbrev pub in_rotation : String → ProjectEntry → Bool
in_rotation team p =
    not (p.key == team) && get_or p.enabled true && ltb 0 (get_or p.weight 1) && not p.scratch

abbrev pub candidate_of : ProjectEntry → Candidate
candidate_of p = record { key = p.key; weight = get_or p.weight 1 }

insert_candidate : Candidate → List Candidate → List Candidate
insert_candidate c [] = c ∷ []
insert_candidate c (d ∷ ds) =
    let rest = insert_candidate c ds in if le_text c.key d.key then c ∷ d ∷ ds else d ∷ rest

-- The sort by key, which keeps the order of equal keys.
unfoldable pub sort_candidates : List Candidate → List Candidate
unfolding insert_candidate
sort_candidates [] = []
sort_candidates (c ∷ cs) = insert_candidate c (sort_candidates cs)

-- `team` is the key of the intake project.
unfoldable pub rotation_candidates : String → List ProjectEntry → List Candidate
unfolding sort_candidates
rotation_candidates team ps = sort_candidates (map candidate_of (filter (in_rotation team) ps))

abbrev pub is_steward_project : String → ProjectEntry → Bool
is_steward_project team p = not (p.key == team) && get_or p.enabled true && not p.scratch

abbrev pub key_of : ProjectEntry → String
key_of p = p.key

-- `stewardProjects`, over `deliveryProjects`: a project of weight 0 stays.
unfoldable pub steward_projects : String → List ProjectEntry → List String
steward_projects team ps = sort_texts (map key_of (filter (is_steward_project team) ps))

-- `cur[k]`.
abbrev pub cursor : String → CursorMap → ℤ
cursor k cur = get_or (lookup k cur) (pos 0)

-- The cursors of the candidates; that of a new one is 0, and that of a project that left is dropped.
unfoldable pub prune : List Candidate → CursorMap → CursorMap
prune [] cur = []
prune (c ∷ cs) cur = (c.key, cursor c.key cur) ∷ prune cs cur

-- `cands.reduce((s, c) => s + c.weight, 0)`.
unfoldable pub total_weight : List Candidate → ℕ
total_weight [] = 0
total_weight (c ∷ cs) = c.weight + total_weight cs

-- `cur[k] = f(cur[k])`, for a key that is there.
unfoldable pub change : String → (ℤ → ℤ) → CursorMap → CursorMap
change k f [] = []
change k f ((j, v) ∷ cur) =
    let rest = change k f cur in if j == k then (j, f v) ∷ cur else (j, v) ∷ rest

-- `for (const c of cands) cur[c.key] += c.weight`.
unfoldable pub raise : List Candidate → CursorMap → CursorMap
unfolding change
raise [] cur = cur
raise (c ∷ cs) cur = raise cs (change c.key (λ v. v +ℤ pos c.weight) cur)

-- `for (const c of cands) if (cur[c.key] > cur[pick]) pick = c.key`.
unfoldable pub best : List Candidate → CursorMap → String → String
best [] cur pick = pick
best (c ∷ cs) cur pick =
    best cs cur (if ltb_ℤ (cursor pick cur) (cursor c.key cur) then c.key else pick)

-- The step over candidates in order.
unfoldable pub advance : List Candidate → CursorMap → Option String × CursorMap
unfolding prune raise best change total_weight
advance [] cur = (none, [])
advance (c ∷ cs) cur =
    let raised = raise (c ∷ cs) (prune (c ∷ cs) cur) in
    let pick = best (c ∷ cs) raised c.key in
    (some pick, change pick (λ v. v -ℤ pos (total_weight (c ∷ cs))) raised)

unfoldable pub smooth_wrr_step : List Candidate → CursorMap → Option String × CursorMap
unfolding advance sort_candidates
smooth_wrr_step candidates cur = advance (sort_candidates candidates) cur

-- `SchedulerState`: the cursors of each agent.
abbrev pub SchedulerState : Type 0
SchedulerState = List (String × CursorMap)

unfoldable pub keep_cursors :
    String → SchedulerState → Option String × CursorMap → Option String × SchedulerState
keep_cursors agent state (none, cur) = (none, state)
keep_cursors agent state (some pick, cur) = (some pick, set agent cur state)

-- `pickAndAdvance`, over the candidates of the workspace; the state is the one that is saved.
unfoldable pub pick_and_advance :
    List Candidate → String → SchedulerState → Option String × SchedulerState
unfolding keep_cursors smooth_wrr_step
pick_and_advance candidates agent state =
    keep_cursors agent state (smooth_wrr_step candidates (get_or (lookup agent state) []))
