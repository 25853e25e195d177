-- ===== src/Ticket/Labels/Laws.antt =====
-- Laws of the derived labels: the bail shape of a label set, its tier, and the column `waiting_on`.
use text.Mathlib.TextPositions.{eq_refl}
use dev_loop.Common.{
  String, Bool, true, false, ◌&&◌, ◌||◌, Option, none, some, List, [], ◌∷◌, ◌++◌, ◌≡◌, refl, inl,
  inr, ◌==◌, arith, any, all, filter, includes, eq_iff, sym, ◌∙◌, ap, Bool-cases, if◌then◌else◌,
}
use dev_loop.Store.{Comment}
use dev_loop.Bail.{BailShape, token, is_bail_label}
use dev_loop.Bail.Laws.{token-is_bail_label}
use dev_loop.Ticket.Labels.{stays, project_label, latest_bail_shape_of, reconcile_bail_shape_labels}

-- A test that an element passes keeps it in a filtered list.
pub includes-filter :
    (x : String) (p : String → Bool) (xs : List String)
    → p x ≡ true
    → includes x (filter p xs) ≡ includes x xs
includes-filter x p [] h = refl
includes-filter x p (y ∷ ys) h = elim (Bool-cases (y == x)) [
  | inl same ↦
      let e : y ≡ x = (eq_iff y x).0 same in let q : p y ≡ true = ap p e ∙ h in rw (q, same)
  | inr other ↦ ground (arith, includes-filter x p ys h)
]

pub includes-append :
    (x : String) (xs ys : List String) → includes x (xs ++ ys) ≡ (includes x xs || includes x ys)
includes-append x [] ys = refl
includes-append x (z ∷ xs) ys = ground (arith, includes-append x xs ys)

pub all-filter : (p : String → Bool) (xs : List String) → all p (filter p xs) ≡ true
all-filter p [] = refl
all-filter p (x ∷ xs) = ground (arith, all-filter p xs)

pub all-append :
    (p : String → Bool) (xs ys : List String) → all p (xs ++ ys) ≡ (all p xs && all p ys)
all-append p [] ys = refl
all-append p (x ∷ xs) ys = ground (arith, all-append p xs ys)

-- The label of the target is there, if there is a target.
abbrev pub has_target : Option BailShape → List String → Bool
has_target none labels = true
has_target (some b) labels = includes (token b) labels

-- The bail labels of a set are its target's: no other, and that one if there is a target.
abbrev pub Fits : Option BailShape → List String → Type 0
Fits target labels = (all (stays target) labels ≡ true) × (has_target target labels ≡ true)

token-stays : (b : BailShape) → stays (some b) (token b) ≡ true
token-stays b = ground (arith, eq_refl (token b))

pub project_label-Fits :
    (target : Option BailShape) (labels : List String) → Fits target (project_label target labels)
unfolding project_label
project_label-Fits none labels = (all-filter (stays none) labels, refl)
project_label-Fits (some b) labels =
    let kept = filter (stays (some b)) labels in
    elim (Bool-cases (includes (token b) kept)) [
      | inl there ↦ rw there (all-filter (stays (some b)) labels, there)
      | inr absent ↦ rw absent (
        all-append (stays (some b)) kept (token b ∷ [])
            ∙ ground (arith, all-filter (stays (some b)) labels, token-stays b),
        includes-append (token b) kept (token b ∷ []) ∙ ground (arith, eq_refl (token b)),
      )
    ]

token-ne : (b : BailShape) (x : String) → is_bail_label x ≡ false → (token b == x) ≡ false
token-ne b x h = elim (Bool-cases (token b == x)) [
  | inr other ↦ other
  | inl same ↦
      let e : token b ≡ x = (eq_iff (token b) x).0 same in
      let t : is_bail_label x ≡ true = ap is_bail_label (sym e) ∙ token-is_bail_label b in
      absurd (cc)
]

-- A label that is no bail label stands in the projected set where it stood before.
pub includes-project_label :
    (x : String) (target : Option BailShape) (labels : List String)
    → is_bail_label x ≡ false
    → includes x (project_label target labels) ≡ includes x labels
unfolding project_label
includes-project_label x none labels h = includes-filter x (stays none) labels (ground arith)
includes-project_label x (some b) labels h =
    let kept = filter (stays (some b)) labels in
    let same : includes x kept ≡ includes x labels =
      includes-filter x (stays (some b)) labels (ground arith) in
    elim (Bool-cases (includes (token b) kept)) [
      | inl there ↦ rw there same
      | inr absent ↦
          rw absent (ground (arith, includes-append x kept (token b ∷ []), token-ne b x h, same))
    ]

any-is_bail-Fits :
    (labels : List String) → any is_bail_label labels ≡ false → all (stays none) labels ≡ true
any-is_bail-Fits [] h = refl
any-is_bail-Fits (x ∷ xs) h = ground (arith, any-is_bail-Fits xs)

-- What the labels of a ticket must project.
abbrev pub target_of : List Comment → String → List String → Option BailShape
target_of comments id labels =
    if includes "blocked" labels then latest_bail_shape_of comments id else none

blocked-is_bail_label : is_bail_label "blocked" ≡ false
unfolding is_bail_label
blocked-is_bail_label = refl

module _ (comments : List Comment) (id : String) (labels : List String) where
  pub includes-reconcile :
      (x : String)
      → is_bail_label x ≡ false
      → includes x (reconcile_bail_shape_labels comments id labels) ≡ includes x labels
  unfolding reconcile_bail_shape_labels
  includes-reconcile x h =
      let p = includes-project_label x (target_of comments id labels) labels h in ground (arith, p)

  pub reconcile-Fits :
      let r = reconcile_bail_shape_labels comments id labels in Fits (target_of comments id r) r
  unfolding reconcile_bail_shape_labels
  reconcile-Fits = elim (Bool-cases (includes "blocked" labels)) [
    | inl is ↦
        let latest = latest_bail_shape_of comments id in
        rw (is, includes-project_label "blocked" latest labels blocked-is_bail_label, is)
          (project_label-Fits latest labels)
    | inr isnt ↦ elim (Bool-cases (any is_bail_label labels)) [
      | inl some_bail ↦
          rw
            (
              isnt,
              some_bail,
              includes-project_label "blocked" none labels blocked-is_bail_label,
              isnt,
            )
            (project_label-Fits none labels)
      | inr no_bail ↦ rw (isnt, no_bail, isnt) (any-is_bail-Fits labels no_bail, refl)
    ]
  ]
