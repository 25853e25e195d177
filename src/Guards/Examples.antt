-- ===== src/Guards/Examples.antt =====
-- The guards at work.
use dev_loop.Common.{
  ℕ, String, Bool, true, false, Option, none, some, List, [], ◌∷◌, ◌==◌, ◌≡◌, ◌↔◌, refl, any,
  includes,
}
use dev_loop.Guards.Stage.{evaluate_staged, exit_of, stage_guard_cmd}
use dev_loop.Guards.Admission.{
  RepoEntry, ReviewWorkspace, PullRequest, refused, extract_gh_repo, entry_for, ref_for, gated_repo,
  check_review_admission,
}
use dev_loop.Guards.Refusals.{stage_refuses, refused_only_unmerged}

stage_refuses_example :
    (exit_of none (evaluate_staged ("a.ts" ∷ "b.ts" ∷ []) (some ("b.ts" ∷ []))) ≡ 3) ↔ (
      (◌≡◌ {A = Option String} none none)
      × ((files : List String) × (some ("b.ts" ∷ []) ≡ some files)
          × (any (λ f. includes f files) ("a.ts" ∷ "b.ts" ∷ []) ≡ true)))
stage_refuses_example = stage_refuses none ("a.ts" ∷ "b.ts" ∷ []) (some ("b.ts" ∷ []))

-- The one staged file was there before, and the reason is given.
overridden :
    stage_guard_cmd ("--override" ∷ "salvage" ∷ []) (some "b.ts\n") (some ("b.ts" ∷ [])) ≡ 0
unfolding stage_guard_cmd dev_loop.Common.Text.trim dev_loop.Common.sort_texts
    dev_loop.Common.Text.split_newlines
overridden = refl

unexplained : stage_guard_cmd ("--json" ∷ []) (some "b.ts\n") (some ("b.ts" ∷ [])) ≡ 3
unfolding stage_guard_cmd dev_loop.Common.sort_texts dev_loop.Common.Text.split_newlines
    dev_loop.Common.Text.trim
unexplained = refl

remote_of_ssh : extract_gh_repo "git@github.com:acme/hub.git" ≡ some "acme/hub"
unfolding extract_gh_repo dev_loop.Common.Text.strip_prefix dev_loop.Common.Text.drop_span
    dev_loop.Common.Text.span
remote_of_ssh = refl

abbrev hub : RepoEntry
hub = record {
  landing_is_pr = true;
  auto_merge = true;
  remote = some "https://github.com/acme/hub";
}

abbrev workspace : ReviewWorkspace
workspace = record { repos = λ ref. some hub; refs_of_project = λ p. "hub" ∷ [] }

abbrev waiting : PullRequest
waiting = record { state = "OPEN"; number = 7 }

abbrev listed : String → Option (List PullRequest)
listed repo = some (waiting ∷ [])

open_is_refused :
    check_review_admission false (some workspace) "p" "In Progress" [] listed ≡ refused waiting
unfolding check_review_admission extract_gh_repo dev_loop.Common.Text.strip_prefix
    dev_loop.Common.Text.drop_span dev_loop.Common.Text.span
open_is_refused = refl

refused_only_unmerged_example :
    ((◌≡◌ {A = String} "In Progress" "In Progress") × (false ≡ false))
    × ((w : ReviewWorkspace) × (some workspace ≡ some w)
        × ((e : RepoEntry) × (entry_for w (ref_for [] (w.refs_of_project "p")) ≡ some e)
            × (e.landing_is_pr ≡ true)
            × (e.auto_merge ≡ true)
            × ((repo : String) × (gated_repo (some e) ≡ some repo)
                × ((others : List PullRequest) × (listed repo ≡ some (waiting ∷ others))
                    × ((waiting.state == "MERGED") ≡ false)))))
refused_only_unmerged_example =
    refused_only_unmerged false (some workspace) "p" "In Progress" [] listed waiting open_is_refused
