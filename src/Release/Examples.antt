-- ===== src/Release/Examples.antt =====
-- The release table at work.
use dev_loop.Common.{String, true, false, none, ◌≡◌, refl, ◌⊎◌, ◌==◌}
use dev_loop.Release.{ReleaseFacts, fresh, resume, refuse, release_decision, is_semver, tag_ref}
use dev_loop.Release.Table.{release_decision-table}

semver_accepts : is_semver "1.15.1-rc.2" ≡ true
unfolding is_semver
semver_accepts = refl

semver_refuses : is_semver "1.15" ≡ false
unfolding is_semver
semver_refuses = refl

abbrev tagged : ReleaseFacts
tagged = record {
  version = "1.15.1";
  tag_exists = true;
  npm_exists = false;
  ref_type = "branch";
  package_name = none;
}

abbrev branch : String
branch = "branch"

release_decision-table_example :
    ((release_decision tagged).mode ≡ refuse)
      × ((release_decision tagged).publish_ref ≡ "")
      × ((is_semver "1.15.1" ≡ false) ⊎ ((branch == "branch") ≡ false) ⊎ (false ≡ true))
    ⊎ (is_semver "1.15.1" ≡ true)
      × (branch ≡ "branch")
      × (false ≡ false)
      × (((release_decision tagged).mode ≡ resume)
            × (true ≡ true)
            × ((release_decision tagged).publish_ref ≡ tag_ref "1.15.1")
          ⊎ ((release_decision tagged).mode ≡ fresh)
            × (true ≡ false)
            × ((release_decision tagged).publish_ref ≡ ""))
release_decision-table_example = release_decision-table tagged
