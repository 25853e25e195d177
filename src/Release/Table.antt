-- ===== src/Release/Table.antt =====
-- The truth table of a release: hub/src/release-mode.ts.
use dev_loop.Common.{true, false, ◌≡◌, ◌⊎◌, ◌==◌, arith, eq_iff}
use dev_loop.Release.{fresh, resume, refuse, ReleaseFacts, release_decision, is_semver, tag_ref}

-- Nothing that npm has is published: a decision to publish is for a bare version from a branch and
-- not on npm; it resumes from the tag exactly where the tag is there, and else starts afresh from the
-- branch. A refusal names no ref.
pub release_decision-table :
    (f : ReleaseFacts)
    → let d = release_decision f in
      (d.mode ≡ refuse)
        × (d.publish_ref ≡ "")
        × ((is_semver f.version ≡ false) ⊎ (f.ref_type == "branch") ≡ false ⊎ (f.npm_exists ≡ true))
      ⊎ (is_semver f.version ≡ true)
        × (f.ref_type ≡ "branch")
        × (f.npm_exists ≡ false)
        × ((d.mode ≡ resume) × (f.tag_exists ≡ true) × (d.publish_ref ≡ tag_ref f.version)
            ⊎ (d.mode ≡ fresh) × (f.tag_exists ≡ false) × (d.publish_ref ≡ ""))
unfolding release_decision
release_decision-table f = ground (arith, eq_iff f.ref_type "branch")
