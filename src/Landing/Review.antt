-- ===== src/Landing/Review.antt =====
-- Who objects to a pull request: `readPrReviewState` of hub/src/landing.ts.
use dev_loop.Common.{
  ℕ, String, Bool, false, Option, none, some, List, [], ◌∷◌, ◌++◌, ◌==◌, includes, get_or,
  if◌then◌else◌,
}
use dev_loop.Common.Text.{is_empty}
use dev_loop.Landing.{
  Answer, replied, Forge, ForgeActor, LatestReview, PrReviews, ReviewThread, ReviewGraph,
}

-- `PrReviewState`.
pub record PrReviewState : Type 0 where
  pub pr : ℕ
  pub review_decision : String
  pub change_requesters : List String
  pub unresolved_thread_authors : List String
  pub bot_logins : List String
  pub url : String

-- A login that counts: neither absent nor empty.
abbrev pub login_in : Option String → List String
login_in none = []
login_in (some l) = if is_empty l then [] else l ∷ []

unfoldable pub change_requesters_of : List LatestReview → List String
change_requesters_of [] = []
change_requesters_of (r ∷ rs) =
    let rest = change_requesters_of rs in
    if r.state == "CHANGES_REQUESTED" then login_in r.author ++ rest else rest

unfoldable pub push_new : List String → List String → List String
push_new xs [] = xs
push_new xs (l ∷ _) = if includes l xs then xs else xs ++ l ∷ []

abbrev is_bot : Option String → Bool
is_bot none = false
is_bot (some t) = t == "Bot"

-- `noteActor`.
unfoldable pub note_actor : List String → Option ForgeActor → List String
unfolding push_new
note_actor bots none = bots
note_actor bots (some a) = if is_bot a.typename then push_new bots (login_in a.login) else bots

unfoldable pub note_actors : List String → List (Option ForgeActor) → List String
unfolding note_actor
note_actors bots [] = bots
note_actors bots (a ∷ rest) = note_actors (note_actor bots a) rest

abbrev pub login_of : Option ForgeActor → Option String
login_of none = none
login_of (some a) = a.login

unfoldable pub thread_authors : List String → List ReviewThread → List String
unfolding push_new
thread_authors authors [] = authors
thread_authors authors (t ∷ ts) =
    thread_authors
      (if t.is_resolved then authors else push_new authors (login_in (login_of t.first_author))) ts

unfoldable pub thread_bots : List String → List ReviewThread → List String
unfolding note_actor
thread_bots bots [] = bots
thread_bots bots (t ∷ ts) = thread_bots (note_actor bots t.first_author) ts

-- The authors of unresolved threads, and the bots; a query that fails leaves both empty.
unfoldable pub read_graph : Answer ReviewGraph → List String × List String
unfolding note_actors thread_authors thread_bots
read_graph (replied g) =
    (thread_authors [] g.threads, thread_bots (note_actors [] g.reviews) g.threads)
read_graph _ = ([], [])

unfoldable pub review_state_of : PrReviews → List String × List String → PrReviewState
unfolding change_requesters_of
review_state_of d (authors, bots) = record {
  pr = d.number;
  review_decision = get_or d.review_decision "";
  change_requesters = change_requesters_of (get_or d.latest_reviews []);
  unresolved_thread_authors = authors;
  bot_logins = bots;
  url = get_or d.url "";
}

unfoldable pub review_state_at : Forge → String → Answer PrReviews → Option PrReviewState
unfolding review_state_of read_graph
review_state_at forge repo (replied d) =
    some (review_state_of d (read_graph (forge.graph repo d.number)))
review_state_at forge repo _ = none

-- `readPrReviewState`.
unfoldable pub read_pr_review_state : Forge → String → String → Option PrReviewState
unfolding review_state_at
read_pr_review_state forge repo pr = review_state_at forge repo (forge.reviews repo pr)
