-- ===== src/Ticket/Invariant/Ordering.antt =====
-- A comment that is not older than the others is read last, so its bail shape is the newest.
use mathlib.Core.List.{map-append, append-nil}
use dev_loop.Common.{
  ℕ, ◌≤◌, String, Bool, List, [], ◌∷◌, ◌++◌, map, ◌≡◌, refl, ◌==◌, ◌∙◌, ap, arith, All, All-filter,
  filter, if◌then◌else◌, ◌or_else◌, Bool-cases, inl, inr,
}
use dev_loop.Store.{Comment}
use dev_loop.Bail.{parse_bail_shape, latest_bail_shape}
use dev_loop.Bail.Laws.{latest_bail_shape-append}
use dev_loop.Ticket.Labels.{
  insert_by_time, order_by_time, is_comment_of, body_of, latest_bail_shape_of,
}

-- None of the comments is younger than `c`.
abbrev pub NotAfter : ℕ → List Comment → Type 0
NotAfter time = All (λ (x : Comment). x.created_at ≤ time)

insert_by_time-append :
    (x c : Comment) (ys : List Comment)
    → x.created_at ≤ c.created_at
    → insert_by_time x (ys ++ c ∷ []) ≡ insert_by_time x ys ++ c ∷ []
unfolding insert_by_time
insert_by_time-append x c [] h = ground arith
insert_by_time-append x c (y ∷ ys) h = ground (arith, insert_by_time-append x c ys h)

order_by_time-append :
    (xs : List Comment) (c : Comment)
    → NotAfter c.created_at xs
    → order_by_time (xs ++ c ∷ []) ≡ order_by_time xs ++ c ∷ []
unfolding order_by_time insert_by_time
order_by_time-append [] c h = refl
order_by_time-append (x ∷ xs) c h =
    ap (insert_by_time x) (order_by_time-append xs c h.1)
    ∙ insert_by_time-append x c (order_by_time xs) h.0

filter-append {ℓ} :
    {A : Type ℓ} (p : A → Bool) (xs ys : List A) → filter p (xs ++ ys) ≡ filter p xs ++ filter p ys
filter-append p [] ys = refl
filter-append p (x ∷ xs) ys = elim (Bool-cases (p x)) [
  | inl yes_it ↦ rw (yes_it) (ap (λ l. x ∷ l) (filter-append p xs ys))
  | inr no_it ↦ rw (no_it) (filter-append p xs ys)
]

-- The newest shape of a ticket after one more comment.
pub latest_bail_shape_of-append :
    (comments : List Comment) (c : Comment) (id : String)
    → NotAfter c.created_at comments
    → latest_bail_shape_of (comments ++ c ∷ []) id ≡ (
        if c.ticket_id == id
        then parse_bail_shape c.body or_else latest_bail_shape_of comments id
        else latest_bail_shape_of comments id)
unfolding latest_bail_shape_of
latest_bail_shape_of-append comments c id h = elim (Bool-cases (c.ticket_id == id)) [
  | inr other ↦
      rw (filter-append (is_comment_of id) comments (c ∷ []), other)
        (rw (append-nil (filter (is_comment_of id) comments)))
  | inl mine ↦
      let kept =
        All-filter (λ (x : Comment). x.created_at ≤ c.created_at) (is_comment_of id) comments h in
      rw (filter-append (is_comment_of id) comments (c ∷ []), mine)
        (ap (λ l. latest_bail_shape (map body_of l)) (order_by_time-append _ c kept)
          ∙ ap latest_bail_shape
              (map-append body_of (order_by_time (filter (is_comment_of id) comments)) (c ∷ []))
          ∙ latest_bail_shape-append
              (map body_of (order_by_time (filter (is_comment_of id) comments))) c.body)
]
