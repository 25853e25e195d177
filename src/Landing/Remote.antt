-- ===== src/Landing/Remote.antt =====
-- What is read of a remote's address and of an error of `gh`: `extractGitHubRepo` and `isAuthError` of
-- hub/src/landing.ts.
use dev_loop.Common.{
  ℕ, String, Bool, not, ◌||◌, Option, none, some, [], ◌∷◌, ◌==◌, eqb, any, is_some, if◌then◌else◌,
}
use dev_loop.Common.Text.{after_prefix, strip_prefix, span, drop_span, is_empty, append}

abbrev not_slash : ℕ → Bool
not_slash c = not (eqb c b'/')

-- The name of a repository, without a `.git` at its end.
strip_git : String → String
strip_git String.[] = String.[]
strip_git (String.◌∷◌ c s) =
    let rest = strip_git s in if String.◌∷◌ c s == ".git" then String.[] else String.◌∷◌ c rest

-- `([^/]+\/[^/]+?)(?:\.git)?$` at the start of a text.
owner_and_repo : String → Option String
unfolding strip_git span drop_span strip_prefix
owner_and_repo s =
    let owner = span not_slash s in
    elim (strip_prefix "/" (drop_span not_slash s)) [
      | none ↦ none
      | some rest ↦
          let name = if rest == ".git" then rest else strip_git rest in
          if is_empty owner || is_empty name || not (is_empty (drop_span not_slash rest))
          then none
          else some (append owner (append "/" name))
    ]

abbrev behind_host : Option String → Option String → Option String
behind_host (some rest) other = some rest
behind_host none other = other

abbrev repo_in : Option String → Option String
unfolding owner_and_repo
repo_in none = none
repo_in (some rest) = owner_and_repo rest

-- `extractGitHubRepo`.
unfoldable pub extract_github_repo : String → Option String
unfolding owner_and_repo strip_prefix
extract_github_repo String.[] = none
extract_github_repo (String.◌∷◌ c s) =
    let here = String.◌∷◌ c s in
    behind_host
      (repo_in (behind_host (strip_prefix "github.com:" here) (strip_prefix "github.com/" here)))
      (extract_github_repo s)

-- A part of the text, compared without case.
has_word : String → String → Bool
unfolding after_prefix
has_word w String.[] = is_empty w
has_word w (String.◌∷◌ c s) = is_some (after_prefix w (String.◌∷◌ c s)) || has_word w s

-- `isAuthError`.
unfoldable pub is_auth_error : String → Bool
unfolding has_word
is_auth_error stderr =
    any (λ w. has_word w stderr)
      ("not logged in" ∷ "gh auth" ∷ "authentication token" ∷ "must be authenticated"
        ∷ "403 Forbidden" ∷ [])

unfoldable pub is_rejection : String → Bool
unfolding has_word
is_rejection stderr =
    any (λ w. has_word w stderr) ("Unknown JSON field" ∷ "unknown flag" ∷ "accepts at most" ∷ [])
