-- ===== src/Landing.antt =====
-- What the forge says of a pull request: hub/src/landing.ts. The answers of `gh` are arguments.
pub mod Freshness
pub mod Review
pub mod Probe
pub mod Remote
pub mod Stall
use dev_loop.Common.{ℕ, String, Bool, Option, List}
use dev_loop.Common.Int.{ℤ}

-- How a call of `gh` ends: it exits with an error, the call or the reading of its output throws, or it
-- prints the value.
pub data Answer (A : Type 0) : Type 0 where
  failed : (stderr : String) → Answer A
  threw : (message : String) → Answer A
  garbled : (message : String) → Answer A
  replied : A → Answer A

-- An entry of `statusCheckRollup`.
pub record Check : Type 0 where
  pub name : String
  pub conclusion : Option String

-- `pr view --json headRefOid,statusCheckRollup`.
pub record PrChecks : Type 0 where
  pub head_ref_oid : Option String
  pub status_check_rollup : Option (List Check)

-- The compare of the tested head against the tip.
pub record Compare : Type 0 where
  pub behind_by : Option ℕ
  pub base_commit : Option String

-- The compare the other way; `commits` is the length of its list.
pub record Delta : Type 0 where
  pub files : Option (List (Option String))
  pub total_commits : Option ℕ
  pub commits : Option ℕ

-- A reviewer, as GraphQL types them.
pub record ForgeActor : Type 0 where
  pub login : Option String
  pub typename : Option String

pub record LatestReview : Type 0 where
  pub author : Option String
  pub state : String

-- `pr view --json number,reviewDecision,url,latestReviews`.
pub record PrReviews : Type 0 where
  pub number : ℕ
  pub review_decision : Option String
  pub url : Option String
  pub latest_reviews : Option (List LatestReview)

pub record ReviewThread : Type 0 where
  pub is_resolved : Bool
  pub first_author : Option ForgeActor

-- The answer of the GraphQL query; absent parts are empty lists.
pub record ReviewGraph : Type 0 where
  pub reviews : List (Option ForgeActor)
  pub threads : List ReviewThread

-- `pr view --json headRefName,commits,title,body`; the messages are the headline and the body of each commit.
pub record PrHead : Type 0 where
  pub head_ref_name : Option String
  pub messages : List String
  pub title : Option String
  pub body : Option String

-- An item of `pr list`.
pub record ListedPr : Type 0 where
  pub number : ℕ
  pub url : String
  pub state : String
  pub head_ref_name : String
  pub title : String
  pub body : String

-- `pr view --json state,statusCheckRollup,mergeable`.
pub record PrLanding : Type 0 where
  pub mergeable : String
  pub conclusions : Option (List (Option String))

-- What each call of `gh` answers.
pub record Forge : Type 0 where
  pub checks : (repo : String) (pr : ℤ) → Answer PrChecks
  pub compare : (repo base : String) (head : Option String) → Answer Compare
  pub delta : (repo : String) (head : Option String) (base : String) → Answer Delta
  pub reviews : (repo pr : String) → Answer PrReviews
  pub graph : (repo : String) (pr : ℕ) → Answer ReviewGraph
  pub head : (repo pr : String) → Answer PrHead
  pub state : (repo pr : String) → Answer (Option String)
  pub list_head : (repo branch : String) → Answer (List ListedPr)
  pub search : (repo text : String) → Answer (List ListedPr)
  pub landing : (repo : String) (pr : ℕ) → Answer PrLanding
