-- ===== src/Servable/Slices.antt =====
-- What a slice holds, and in which order: hub/src/servable.ts.
use dev_loop.Common.{
  ℕ, String, Bool, true, false, ◌&&◌, ◌||◌, Option, none, some, List, [], ◌∷◌, map, ◌==◌, ◌≡◌, ◌⊎◌,
  refl, inl, inr, arith, filter, includes, leb, ltb, eqb, All, eq_iff, Bool-cases, if◌then◌else◌,
}
use dev_loop.Common.Sorting.{IsSorted, sort_by-IsSorted, All-sort_by}
use dev_loop.Store.{Db, Ticket, State, todo, in_progress, in_review}
use dev_loop.Store.Laws.{same_state_iff}
use dev_loop.Servable.{
  pick_rank, assigned_to, unassigned, is_todo_servable_for, summary, created_first, is_row_in,
  by_state, picked_first, resumes, lands, ranked_todo, servable_slice,
}

-- What passes a filter has the property that the test shows.
All-filter_test {ℓ κ} :
    {A : Type ℓ} (P : A → Type κ) (p : A → Bool) (xs : List A)
    → ((x : A) → p x ≡ true → P x)
    → All P (filter p xs)
All-filter_test P p [] h = tt
All-filter_test P p (x ∷ xs) h = elim (Bool-cases (p x)) [
  | inl e ↦ rw e (h x e, All-filter_test P p xs h)
  | inr e ↦ rw e (All-filter_test P p xs h)
]

-- A property of every row that passes the second test too.
All-both {ℓ κ} :
    {A : Type ℓ} (P Q : A → Type κ) (p : A → Bool) (xs : List A)
    → All P xs
    → ((x : A) → P x → p x ≡ true → Q x)
    → All Q (filter p xs)
All-both P Q p [] h f = tt
All-both P Q p (x ∷ xs) h f = elim (Bool-cases (p x)) [
  | inl e ↦ rw e (f x h.0 e, All-both P Q p xs h.1 f)
  | inr e ↦ rw e (All-both P Q p xs h.1 f)
]

All-map {ℓ κ} :
    {A : Type ℓ} (P : A → Type κ) (f : A → A) (xs : List A)
    → All (λ x. P (f x)) xs
    → All P (map f xs)
All-map P f [] h = tt
All-map P f (x ∷ xs) h = (h.0, All-map P f xs h.1)

abbrev pub IsRow : String → State → Ticket → Type 0
IsRow project_id st t = (t.project_id ≡ project_id) × (t.state ≡ st)

-- The ticket is the actor's own, or nobody's where the actor is the single developer.
abbrev pub IsOwn : String → Ticket → Type 0
IsOwn actor t = (t.assignee ≡ some actor) ⊎ ((actor ≡ "dev") × (t.assignee ≡ none))

rows-IsRow :
    (db : Db) (project_id : String) (st : State)
    → All (IsRow project_id st) (by_state db project_id st)
unfolding by_state
rows-IsRow db project_id st =
    All-sort_by created_first (IsRow project_id st) (filter (is_row_in project_id st) db.tickets) (
      All-filter_test (IsRow project_id st) (is_row_in project_id st) db.tickets
        (λ t h. ground (arith, eq_iff t.project_id project_id, same_state_iff t.state st)))

mine-IsOwn :
    (actor : String) (a : Option String)
    → (if actor == "dev" then unassigned a || assigned_to "dev" a else assigned_to actor a) ≡ true
    → (a ≡ some actor) ⊎ ((actor ≡ "dev") × (a ≡ none))
mine-IsOwn actor none h = elim (Bool-cases (actor == "dev")) [
  | inl e ↦ inr ((eq_iff actor "dev").0 e, refl)
  | inr e ↦ absurd (cc (rw e at h))
]
mine-IsOwn actor (some a) h =
    inl (ground (arith, eq_iff actor "dev", eq_iff a "dev", eq_iff a actor))

-- What every ticket of the Todo slice is.
abbrev pub IsServed : String → String → Ticket → Type 0
IsServed project_id actor t =
    IsRow project_id todo t × ((includes "blocked" t.labels ≡ false) × IsOwn actor t)

-- The Todo slice of an actor holds tickets in Todo of the project that are not blocked and are the
-- actor's own, or nobody's where the actor is `dev`.
pub slice_is_own :
    (db : Db) (project_id actor : String)
    → All (IsServed project_id actor) (servable_slice db project_id actor).todo
unfolding servable_slice is_todo_servable_for
slice_is_own db project_id actor =
    All-map (IsServed project_id actor) summary (ranked_todo db project_id actor) (
      All-sort_by picked_first (IsServed project_id actor)
        (filter (is_todo_servable_for actor) (by_state db project_id todo))
        (All-both (IsRow project_id todo) (IsServed project_id actor) (is_todo_servable_for actor)
          (by_state db project_id todo) (rows-IsRow db project_id todo)
          (λ t row h. (row, (ground (arith, h), mine-IsOwn actor t.assignee (ground (arith, h)))))))

abbrev pub IsPlain : Ticket → Type 0
IsPlain t = includes "sensitive" t.labels ≡ false

-- The junior developer is served no sensitive ticket, in none of the three slices.
pub junior_gets_no_sensitive :
    (db : Db) (project_id : String)
    → All IsPlain (servable_slice db project_id "junior-dev").todo
      × All IsPlain (servable_slice db project_id "junior-dev").in_progress
      × All IsPlain (servable_slice db project_id "junior-dev").in_review
unfolding servable_slice is_todo_servable_for
junior_gets_no_sensitive db project_id =
    let junior : String = "junior-dev" in
    (
      All-map IsPlain summary (ranked_todo db project_id junior) (
          All-sort_by picked_first IsPlain
            (filter (is_todo_servable_for junior) (by_state db project_id todo))
            (All-filter_test IsPlain (is_todo_servable_for junior) (by_state db project_id todo)
              (λ t h. ground (arith, h)))),
      All-map IsPlain summary (filter (resumes junior) (by_state db project_id in_progress)) (
          All-filter_test IsPlain (resumes junior) (by_state db project_id in_progress)
            (λ t h. ground (arith, h))),
      All-map IsPlain summary (filter (lands junior) (by_state db project_id in_review)) (
          All-filter_test IsPlain (lands junior) (by_state db project_id in_review)
            (λ t h. ground (arith, h))),
    )

-- The ranks as `picked_first` compares them.
order_trans :
    (r s t a b c : ℕ)
    → (ltb r s || (eqb r s && leb a b)) ≡ true
    → (ltb s t || (eqb s t && leb b c)) ≡ true
    → (ltb r t || (eqb r t && leb a c)) ≡ true
order_trans r s t a b c h k = ground arith

order_total :
    (r s a b : ℕ)
    → (ltb r s || (eqb r s && leb a b)) ≡ false
    → (ltb s r || (eqb s r && leb b a)) ≡ true
order_total r s a b h = ground arith

IsSorted-summary :
    (ts : List Ticket) → IsSorted picked_first ts → IsSorted picked_first (map summary ts)
unfolding pick_rank
IsSorted-summary [] h = tt
IsSorted-summary (t ∷ ts) h =
    (All-map (λ y. picked_first (summary t) y ≡ true) summary ts h.0, IsSorted-summary ts h.1)

-- The Todo slice is sorted by the rank, and by the time of creation within a rank.
pub slice_is_ranked :
    (db : Db) (project_id actor : String)
    → IsSorted picked_first (servable_slice db project_id actor).todo
unfolding servable_slice ranked_todo
slice_is_ranked db project_id actor = IsSorted-summary (ranked_todo db project_id actor) (
    sort_by-IsSorted picked_first
      (λ x y z h k.
        order_trans (pick_rank x) (pick_rank y) (pick_rank z) x.created_at y.created_at z.created_at
          h k)
      (λ x y h. order_total (pick_rank x) (pick_rank y) x.created_at y.created_at h)
      (filter (is_todo_servable_for actor) (by_state db project_id todo)))
