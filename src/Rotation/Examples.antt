-- ===== src/Rotation/Examples.antt =====
-- The rotation over two projects of weights 2 and 1.
use dev_loop.Common.{
  ℕ, ◌+◌, ◌*◌, ◌≤◌, ◌<◌, String, Bool, true, false, Option, none, some, List, [], ◌∷◌, ◌≡◌, refl,
  ◌⊎◌, arith, length,
}
use dev_loop.Common.Int.{pos, negsuc, pos_part, neg_part, ◌+ℤ◌, ◌-ℤ◌}
use dev_loop.Rotation.{
  Candidate, ProjectEntry, cursor, prune, raise, total_weight, sort_candidates, rotation_candidates,
  steward_projects, smooth_wrr_step, pick_and_advance,
}
use dev_loop.Rotation.Step.{IsFirstBest, weight_of}
use dev_loop.Rotation.Fairness.{fires, picked}
use dev_loop.Rotation.Agents.{agents_fire, picks_of, turns, cursors_of, agents_rotate_alone}
use dev_loop.Rotation.Shares.{cursor_bounds, fair_share, step_pick}

abbrev project : String → Option Bool → Option ℕ → Bool → ProjectEntry
project k on w s = record { key = k; enabled = on; weight = w; scratch = s }

abbrev two_projects : List Candidate
two_projects = record { key = "b"; weight = 1 } ∷ record { key = "a"; weight = 2 } ∷ []

-- The intake, a disabled, a paused and a scratch project do not rotate.
only_delivery :
    rotation_candidates "_team" (
      project "_team" none none false
      ∷ project "off" (some false) none false
      ∷ project "paused" none (some 0) false
      ∷ project "tmp" none none true
      ∷ project "b" none none false
      ∷ project "a" (some true) (some 2) false
      ∷ [])
    ≡ sort_candidates two_projects
unfolding rotation_candidates sort_candidates
only_delivery = refl

-- The stewards cover the paused project too.
stewards_cover :
    steward_projects "_team" (
      project "_team" none none false
      ∷ project "paused" none (some 0) false
      ∷ project "a" none none false
      ∷ [])
    ≡ "a" ∷ "paused" ∷ []
unfolding steward_projects dev_loop.Common.sort_texts
stewards_cover = refl

-- The order of the picks is a, b, a.
three_fires :
    fires 3 two_projects []
    ≡ (some "a" ∷ some "b" ∷ some "a" ∷ [], ("a", pos 0) ∷ ("b", pos 0) ∷ [])
unfolding fires smooth_wrr_step ◌+ℤ◌ ◌-ℤ◌
three_fires = refl

saved_cursors :
    pick_and_advance two_projects "pm" []
    ≡ (some "a", ("pm", ("a", negsuc 0) ∷ ("b", pos 1) ∷ []) ∷ [])
unfolding pick_and_advance ◌+ℤ◌ ◌-ℤ◌ dev_loop.Common.Maps.set
saved_cursors = refl

nothing_to_fire : pick_and_advance [] "pm" [] ≡ (none, [])
unfolding pick_and_advance
nothing_to_fire = refl

cursors_bounded :
    (neg_part (cursor "a" (fires 1 two_projects []).1)
      < pos_part (cursor "a" (fires 1 two_projects []).1)
        + total_weight (sort_candidates two_projects))
    × (pos_part (cursor "a" (fires 1 two_projects []).1)
        ≤ neg_part (cursor "a" (fires 1 two_projects []).1)
          + length (sort_candidates two_projects) * total_weight (sort_candidates two_projects))
unfolding sort_candidates total_weight
cursors_bounded = cursor_bounds two_projects 1 "a" ((refl, tt), (tt, tt)) (omega arith) refl

fair_share_example :
    (picked "a" (fires 3 two_projects []).0 * total_weight (sort_candidates two_projects)
      < 3 * weight_of "a" (sort_candidates two_projects)
        + total_weight (sort_candidates two_projects))
    × (3 * weight_of "a" (sort_candidates two_projects)
        ≤ picked "a" (fires 3 two_projects []).0 * total_weight (sort_candidates two_projects)
          + length (sort_candidates two_projects) * total_weight (sort_candidates two_projects))
unfolding sort_candidates total_weight
fair_share_example = fair_share two_projects 3 "a" ((refl, tt), (tt, tt)) (omega arith) refl

step_picks :
    ((sort_candidates two_projects ≡ []) × (smooth_wrr_step two_projects [] ≡ (none, [])))
    ⊎ ((p : String) × ((smooth_wrr_step two_projects []).0 ≡ some p)
        × IsFirstBest
            (raise (sort_candidates two_projects) (prune (sort_candidates two_projects) []))
            p
            (sort_candidates two_projects))
step_picks = step_pick two_projects []

agents_rotate_alone_example :
    (picks_of "pm" (agents_fire ("pm" ∷ "qa" ∷ "pm" ∷ []) two_projects []).0
      ≡ (fires (turns "pm" ("pm" ∷ "qa" ∷ "pm" ∷ [])) two_projects (cursors_of "pm" [])).0)
    × (cursors_of "pm" (agents_fire ("pm" ∷ "qa" ∷ "pm" ∷ []) two_projects []).1
        ≡ (fires (turns "pm" ("pm" ∷ "qa" ∷ "pm" ∷ [])) two_projects (cursors_of "pm" [])).1)
unfolding sort_candidates
agents_rotate_alone_example =
    agents_rotate_alone ("pm" ∷ "qa" ∷ "pm" ∷ []) two_projects [] "pm" refl
