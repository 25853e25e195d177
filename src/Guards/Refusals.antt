-- ===== src/Guards/Refusals.antt =====
-- When the guards refuse: hub/src/stage-guard.ts, hub/src/review-admission.ts.
use dev_loop.Common.{
  String, Bool, true, false, not, ◌||◌, Option, none, some, List, [], ◌∷◌, ◌==◌, ◌≡◌, ◌↔◌, refl,
  ◌∙◌, sym, ap, arith, any, filter, includes, is_nil, inl, inr, Bool-cases, eq_iff,
}
use mathlib.Core.Path.{subst}
use dev_loop.Guards.Stage.{evaluate_staged, exit_of}
use dev_loop.Guards.Admission.{
  RepoEntry, ReviewWorkspace, PullRequest, refused, entry_for, ref_for, gated_repo, judge_listed,
  judge_listed_in, admission_in, check_review_admission,
}

is_nil-filter : (p : String → Bool) (xs : List String) → is_nil (filter p xs) ≡ not (any p xs)
is_nil-filter p [] = refl
is_nil-filter p (x ∷ xs) = ground (arith, is_nil-filter p xs)

-- The guard exits with 3 exactly when there is no override, the fire left a record at its start, and one
-- of the staged files is in it.
pub stage_refuses :
    (override : Option String) (staged : List String) (pre : Option (List String))
    → (exit_of override (evaluate_staged staged pre) ≡ 3) ↔ (
        (override ≡ none)
        × ((files : List String) × (pre ≡ some files)
            × (any (λ f. includes f files) staged ≡ true)))
unfolding exit_of evaluate_staged
stage_refuses none staged none = (λ h. absurd (omega (arith, h)), λ h. absurd (cc (h.1.1)))
stage_refuses none staged (some files) = (
  λ h. (refl, (files, refl, ground (arith, h, is_nil-filter (λ f. includes f files) staged))),
  λ h.
      let e : files ≡ h.1.0 = cc (h.1.1) in
      let found = subst (λ fs. any (λ f. includes f fs) staged ≡ true) (sym e) h.1.2 in
      ground (arith, found, is_nil-filter (λ f. includes f files) staged),
)
stage_refuses (some o) staged none = (λ h. absurd (ground (arith, h)), λ h. absurd (cc (h.0)))
stage_refuses (some o) staged (some files) =
    (λ h. absurd (ground (arith, h)), λ h. absurd (cc (h.0)))

judge_listed-refused :
    (r : Option (List PullRequest)) (pr : PullRequest)
    → judge_listed r ≡ refused pr
    → (others : List PullRequest) × (r ≡ some (pr ∷ others)) × ((pr.state == "MERGED") ≡ false)
unfolding judge_listed
judge_listed-refused none pr h = absurd (cc)
judge_listed-refused (some []) pr h = absurd (cc)
judge_listed-refused (some (p ∷ ps)) pr h = elim (Bool-cases (p.state == "MERGED")) [
  | inl e ↦ absurd (cc (rw e at h))
  | inr e ↦
      let same : p ≡ pr = cc (rw e at h) in
      (
        ps,
        ap (λ x. some (x ∷ ps)) same,
        subst (λ (x : PullRequest). (x.state == "MERGED") ≡ false) same e,
      )
]

judge_listed_in-refused :
    (o : Option String) (list : String → Option (List PullRequest)) (pr : PullRequest)
    → judge_listed_in o list ≡ refused pr
    → (repo : String) × (o ≡ some repo)
      × ((others : List PullRequest) × (list repo ≡ some (pr ∷ others))
          × ((pr.state == "MERGED") ≡ false))
unfolding judge_listed_in
judge_listed_in-refused none list pr h = absurd (cc)
judge_listed_in-refused (some repo) list pr h = (repo, refl, judge_listed-refused (list repo) pr h)

gated_repo-some :
    (o : Option RepoEntry) (repo : String)
    → gated_repo o ≡ some repo
    → (e : RepoEntry) × (o ≡ some e) × (e.landing_is_pr ≡ true) × (e.auto_merge ≡ true)
unfolding gated_repo
gated_repo-some none repo h = absurd (cc)
gated_repo-some (some e) repo h = (e, refl, ground (arith, h), ground (arith, h))

-- A ticket is refused its way into review only from In Progress, without the operator's variable, in a
-- workspace whose repository for the ticket lands by pull requests and merges them itself, and only
-- where the first pull request that is listed for it is not merged.
pub refused_only_unmerged :
    (admit_unlanded : Bool) (ws : Option ReviewWorkspace) (project state : String)
    (labels : List String) (list : String → Option (List PullRequest)) (pr : PullRequest)
    → check_review_admission admit_unlanded ws project state labels list ≡ refused pr
    → ((state ≡ "In Progress") × (admit_unlanded ≡ false))
      × ((w : ReviewWorkspace) × (ws ≡ some w)
          × ((e : RepoEntry) × (entry_for w (ref_for labels (w.refs_of_project project)) ≡ some e)
              × (e.landing_is_pr ≡ true)
              × (e.auto_merge ≡ true)
              × ((repo : String) × (gated_repo (some e) ≡ some repo)
                  × ((others : List PullRequest) × (list repo ≡ some (pr ∷ others))
                      × ((pr.state == "MERGED") ≡ false)))))
unfolding check_review_admission admission_in
refused_only_unmerged admit_unlanded none project state labels list pr h =
    absurd (ground (arith, h))
refused_only_unmerged admit_unlanded (some w) project state labels list pr h =
    let entry = entry_for w (ref_for labels (w.refs_of_project project)) in
    elim (Bool-cases (not (state == "In Progress") || admit_unlanded)) [
      | inl out ↦ absurd (cc (rw out at h))
      | inr at_edge ↦
          let (repo, gated, listed) =
            judge_listed_in-refused (gated_repo entry) list pr (rw at_edge at h) in
          let (e, found, lands, merges) = gated_repo-some entry repo gated in
          (
            (ground (arith, at_edge, eq_iff state "In Progress"), ground (arith, at_edge)),
            (w, refl, (e, found, lands, merges, (repo, ap gated_repo (sym found) ∙ gated, listed))),
          )
    ]
