-- ===== src/Landing/Stall/Evidence.antt =====
-- What a stall rests on: `readLandingState` of hub/src/landing.ts.
use dev_loop.Common.{
  ℕ, String, Bool, true, false, not, ◌&&◌, Option, none, some, List, [], ◌∷◌, ◌≡◌, refl, any,
  length, is_nil, dedup, get_or, if◌then◌else◌, Bool-cases, inl, inr, arith, ltb,
}
use dev_loop.Landing.{Answer, failed, threw, garbled, replied}
use dev_loop.Landing.Remote.{extract_github_repo}
use dev_loop.Landing.Stall.{
  LandingRepo, LandingFacts, too_old, red_base, missing_checks, no_remote, direct_landing,
  LandingForge, LandingState, not_judged, stalled, healthy, OpenPr, classify, is_red, is_overdue,
  all_lacking, judge_open, facts_of, loop_prs, read_of_remote, read_landing_state, is_blank_remote,
}

-- A stalled state names at least one open pull request.
abbrev pub HasOpen : LandingState → Type 0
HasOpen (stalled r f) = ltb 0 f.open_loop_prs ≡ true
HasOpen _ = Unit {0}

either_HasOpen :
    (b : Bool) (x y : LandingState) → HasOpen x → HasOpen y → HasOpen (if b then x else y)
either_HasOpen true x y hx hy = hx
either_HasOpen false x y hx hy = hy

classify-HasOpen :
    (now : ℕ) (repo : LandingRepo) (facts : LandingFacts) (ps : List OpenPr)
    → facts.open_loop_prs ≡ length ps
    → HasOpen (classify now repo facts ps)
unfolding classify all_lacking dedup
classify-HasOpen now repo facts [] e = elim (Bool-cases (is_red facts.base_checks)) [
  | inl r ↦ rw r tt
  | inr r ↦ rw r tt
]
classify-HasOpen now repo facts (p ∷ ps) e =
    let open_there : ltb 0 facts.open_loop_prs ≡ true = ground (arith, e) in
    let count = length (p ∷ ps) in
    let lacking = dedup (all_lacking repo.merge_checks (p ∷ ps)) in
    let old =
      if any (is_overdue now facts.base_checks) (p ∷ ps)
      then stalled (too_old count) facts
      else healthy facts in
    either_HasOpen (is_red facts.base_checks && true) (stalled (red_base repo.default_branch) facts)
      (if not (is_nil lacking) then stalled (missing_checks count lacking) facts else old)
      open_there
      (either_HasOpen (not (is_nil lacking)) (stalled (missing_checks count lacking) facts) old
        open_there
        (either_HasOpen (any (is_overdue now facts.base_checks) (p ∷ ps))
          (stalled (too_old count) facts) (healthy facts) open_there tt))

open-HasOpen :
    (forge : LandingForge) (now window : ℕ) (repo : LandingRepo) (gh_repo : String)
    (a : Answer (List OpenPr))
    → HasOpen (judge_open forge now window repo gh_repo a)
unfolding judge_open facts_of
open-HasOpen forge now window repo gh_repo (threw _) = tt
open-HasOpen forge now window repo gh_repo (failed _) = tt
open-HasOpen forge now window repo gh_repo (garbled _) = tt
open-HasOpen forge now window repo gh_repo (replied ps) =
    classify-HasOpen now repo (facts_of forge now window repo gh_repo (loop_prs ps)) (loop_prs ps)
      refl

remote-HasOpen :
    (forge : LandingForge) (now window : ℕ) (repo : LandingRepo) (o : Option String)
    → HasOpen (read_of_remote forge now window repo o)
unfolding read_of_remote
remote-HasOpen forge now window repo none = tt
remote-HasOpen forge now window repo (some r) =
    open-HasOpen forge now window repo r (forge.list_open r)

-- A repository is called stalled only with an open pull request of the loop.
pub stall-HasOpen :
    (forge : LandingForge) (now window : ℕ) (repo : LandingRepo)
    → HasOpen (read_landing_state forge now window repo)
unfolding read_landing_state
stall-HasOpen forge now window repo =
    let read = read_of_remote forge now window repo (extract_github_repo (get_or repo.remote "")) in
    let of_remote = if is_blank_remote repo.remote then not_judged no_remote else read in
    either_HasOpen (not (repo.landing_is_pr && repo.auto_merge)) (not_judged direct_landing)
      of_remote tt
      (either_HasOpen (is_blank_remote repo.remote) (not_judged no_remote) read tt
        (remote-HasOpen forge now window repo (extract_github_repo (get_or repo.remote ""))))
