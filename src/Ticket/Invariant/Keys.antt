-- ===== src/Ticket/Invariant/Keys.antt =====
-- The primary key of the tickets: no id stands in two rows.
use dev_loop.Common.{
  String, Bool, true, false, ◌||◌, some, List, [], ◌∷◌, ◌++◌, ◌≡◌, refl, ◌∙◌, ap, sym, arith, All,
  any, find, eq_iff, Bool-cases, inl, inr,
}
use dev_loop.Store.{Ticket, is_row, update_rows}
use dev_loop.Ticket.Insert.{has_id}

abbrev pub Unique : List Ticket → Type 0
Unique [] = Unit
Unique (t ∷ ts) = (any (has_id t.id) ts ≡ false) × Unique ts

-- A row that an update may write keeps its id.
abbrev pub KeepsId : (Ticket → Ticket) → Type 0
KeepsId f = (t : Ticket) → (f t).id ≡ t.id

any-update_rows :
    (x : String) (p : Ticket → Bool) (f : Ticket → Ticket) (ts : List Ticket)
    → KeepsId f
    → any (has_id x) (update_rows p f ts) ≡ any (has_id x) ts
unfolding update_rows
any-update_rows x p f [] k = refl
any-update_rows x p f (t ∷ ts) k = ground (arith, any-update_rows x p f ts k, k t)

pub Unique-update_rows :
    (p : Ticket → Bool) (f : Ticket → Ticket) (ts : List Ticket)
    → KeepsId f
    → Unique ts
    → Unique (update_rows p f ts)
unfolding update_rows
Unique-update_rows p f [] k u = tt
Unique-update_rows p f (t ∷ ts) k u =
    let rest = Unique-update_rows p f ts k u.1 in
    let free = any-update_rows t.id p f ts k ∙ u.0 in
    elim (Bool-cases (p t)) [
      | inl hit ↦ rw (hit, k t) (free, rest)
      | inr miss ↦ rw miss (free, rest)
    ]

any-append :
    (x : String) (ts : List Ticket) (r : Ticket)
    → any (has_id x) (ts ++ r ∷ []) ≡ (any (has_id x) ts || has_id x r)
any-append x [] r = ground arith
any-append x (t ∷ ts) r = ground (arith, any-append x ts r)

-- A row with a fresh id.
pub Unique-append :
    (ts : List Ticket) (r : Ticket)
    → any (has_id r.id) ts ≡ false
    → Unique ts
    → Unique (ts ++ r ∷ [])
Unique-append [] r h u = (refl, tt)
Unique-append (t ∷ ts) r h u =
    let other : has_id t.id r ≡ false = ground (arith, eq_iff t.id r.id, eq_iff r.id t.id) in
    let more : any (has_id r.id) ts ≡ false = ground arith in
    (any-append t.id ts r ∙ ground arith, Unique-append ts r more u.1)

no_row :
    (x project_id : String) (ts : List Ticket)
    → any (has_id x) ts ≡ false
    → All (λ (t : Ticket). t.id ≡ x → t.project_id ≡ project_id) ts
no_row x project_id [] h = tt
no_row x project_id (t ∷ ts) h =
    (λ e. absurd (ground (arith, eq_iff t.id x)), no_row x project_id ts (ground arith))

found-any :
    (project_id id : String) (ts : List Ticket) (t : Ticket)
    → find (is_row project_id id) ts ≡ some t
    → any (has_id id) ts ≡ true
found-any project_id id [] t h = absurd (cc)
found-any project_id id (x ∷ ts) t h = ground (arith, found-any project_id id ts t)

-- The project that a ticket is found in is the only one with its id.
pub found-one_project :
    (project_id id : String) (ts : List Ticket) (t : Ticket)
    → find (is_row project_id id) ts ≡ some t
    → Unique ts
    → All (λ (t : Ticket). t.id ≡ id → t.project_id ≡ project_id) ts
found-one_project project_id id [] t h u = absurd (cc)
found-one_project project_id id (x ∷ ts) t h u = elim (Bool-cases (is_row project_id id x)) [
  | inl hit ↦
      let same : x.id ≡ id = ground (arith, eq_iff x.id id) in
      (
        λ e. ground (arith, eq_iff x.project_id project_id),
        no_row id project_id ts (ap (λ k. any (has_id k) ts) (sym same) ∙ u.0),
      )
  | inr miss ↦
      let later : find (is_row project_id id) ts ≡ some t = ground arith in
      (
        λ e.
            let there = ap (λ k. any (has_id k) ts) e ∙ found-any project_id id ts t later in
            absurd (cc),
        found-one_project project_id id ts t later u.1,
      )
]
