-- ===== src/PrTickets/Claims.antt =====
-- What `prTicketIds` answers: hub/src/pr-tickets.ts.
use Prim.Native.Char.{Char, code}
use dev_loop.Common.{
  String, Bool, true, false, ◌||◌, Option, none, some, List, [], ◌∷◌, ◌++◌, ◌≡◌, refl, includes,
  head?, Bool-cases, inl, inr, ◌==◌, eq_iff, arith, All, All-append, Option-cases, ◌or_else◌,
}
use dev_loop.Common.Text.{is_empty, append, is_upper, span, drop_span}
use mathlib.Core.Path.{subst}
use dev_loop.Ticket.Labels.Laws.{includes-append}
use dev_loop.PrTickets.{
  scan_from, scan_ids, id_at, id_behind, is_word, ends_id, id_number, is_id_char, add_id, add_ids,
  scan_texts, branch_ids, pr_ticket_ids, ticket_from_branch, PrTicketSources, put_front,
  id_of_group, branch_group,
}

-- No text stands twice.
abbrev pub IsDistinct : List String → Type 0
IsDistinct [] = Unit {0}
IsDistinct (x ∷ xs) = (includes x xs ≡ false) × IsDistinct xs

add_last-IsDistinct :
    (xs : List String) (id : String)
    → includes id xs ≡ false
    → IsDistinct xs
    → IsDistinct (xs ++ id ∷ [])
add_last-IsDistinct [] id fresh d = (refl, tt)
add_last-IsDistinct (x ∷ xs) id fresh (here, d) = (
  ground (arith, includes-append x xs (id ∷ []), fresh, here, eq_iff id x, eq_iff x id),
  add_last-IsDistinct xs id (ground (arith, fresh)) d,
)

add_ids-IsDistinct : (out ids : List String) → IsDistinct out → IsDistinct (add_ids out ids)
unfolding add_ids add_id
add_ids-IsDistinct out [] d = d
add_ids-IsDistinct out (id ∷ ids) d = elim (Bool-cases (is_empty id || includes id out)) [
  | inl there ↦ rw there (add_ids-IsDistinct out ids d)
  | inr new ↦
      rw new (
        add_ids-IsDistinct (out ++ id ∷ []) ids
          (add_last-IsDistinct out id (ground (arith, new)) d))
]

includes-add_ids :
    (out ids : List String) (id : String)
    → is_empty id ≡ false
    → includes id (add_ids out ids) ≡ includes id out || includes id ids
unfolding add_ids add_id
includes-add_ids out [] id full = ground arith
includes-add_ids out (x ∷ ids) id full = elim (Bool-cases (is_empty x || includes x out)) [
  | inl there ↦ rw there (elim (Bool-cases (x == id)) [
    | inl same ↦
        let e : x ≡ id = (eq_iff x id).0 same in
        ground (arith, includes-add_ids out ids id full, there, full, e)
    | inr other ↦ rw other (includes-add_ids out ids id full)
  ])
  | inr new ↦ rw new (
      ground (arith, includes-add_ids (out ++ x ∷ []) ids id full, includes-append id out (x ∷ [])))
]

abbrev IsFull : String → Type 0
IsFull id = is_empty id ≡ false

id_behind-IsFull :
    (c : Char) (prefix s id : String) → id_behind (String.◌∷◌ c prefix) s ≡ some id → IsFull id
unfolding id_behind
id_behind-IsFull c prefix s id h = elim (Bool-cases (ends_id s)) [
  | inl ends ↦
      let e : append (String.◌∷◌ c prefix) (id_number s) ≡ id = cc (rw ends at h) in
      subst IsFull e refl
  | inr other ↦ absurd (cc (rw other at h))
]

id_at-IsFull : (s id : String) → id_at s ≡ some id → IsFull id
unfolding id_at
id_at-IsFull String.[] id h = absurd (cc h)
id_at-IsFull (String.◌∷◌ c s) id h = elim (Bool-cases (is_upper (code c))) [
  | inl up ↦ id_behind-IsFull c (span is_id_char s) (drop_span is_id_char s) id (rw up at h)
  | inr other ↦ absurd (cc (rw other at h))
]

put_front-IsFull :
    (o : Option String) (ids : List String)
    → ((id : String) → o ≡ some id → IsFull id)
    → All IsFull ids
    → All IsFull (put_front o ids)
put_front-IsFull none ids f a = a
put_front-IsFull (some id) ids f a = (f id refl, a)

scan-IsFull : (in_word : Bool) (s : String) → All IsFull (scan_from in_word s)
unfolding scan_from
scan-IsFull in_word String.[] = tt
scan-IsFull true (String.◌∷◌ c s) = scan-IsFull (is_word (code c)) s
scan-IsFull false (String.◌∷◌ c s) =
    put_front-IsFull (id_at (String.◌∷◌ c s)) (scan_from (is_word (code c)) s)
      (id_at-IsFull (String.◌∷◌ c s)) (scan-IsFull (is_word (code c)) s)

scan_texts-IsFull : (ts : List String) → All IsFull (scan_texts ts)
unfolding scan_texts
scan_texts-IsFull [] = tt
scan_texts-IsFull (t ∷ ts) =
    All-append IsFull (scan_ids t) (scan_texts ts) (scan-IsFull false t) (scan_texts-IsFull ts)

head?-IsFull : (ids : List String) (id : String) → All IsFull ids → head? ids ≡ some id → IsFull id
head?-IsFull [] id a h = absurd (cc h)
head?-IsFull (x ∷ ids) id (f, a) h = let e : x ≡ id = cc h in ground (arith, e, f)

branch-IsFull : (o : Option String) (id : String) → id_of_group o ≡ some id → IsFull id
unfolding id_of_group
branch-IsFull none id h = absurd (cc h)
branch-IsFull (some group) id h = head?-IsFull (scan_ids group) id (scan-IsFull false group) h

head_kept : (x : String) (out ids : List String) → head? (add_ids (x ∷ out) ids) ≡ some x
unfolding add_ids add_id
head_kept x out [] = refl
head_kept x out (id ∷ ids) = elim (Bool-cases (is_empty id || includes id (x ∷ out))) [
  | inl there ↦ rw there (head_kept x out ids)
  | inr new ↦ rw new (head_kept x (out ++ id ∷ []) ids)
]

head_first : (ids : List String) → All IsFull ids → head? (add_ids [] ids) ≡ head? ids
unfolding add_ids add_id
head_first [] a = refl
head_first (id ∷ ids) (f, a) = rw f (head_kept id [] ids)

-- The claims have no id twice, the branch's id first, and exactly the ids that the branch, the commits, the
-- title and the body name.
pub pr_ticket_ids_claims :
    (src : PrTicketSources) (id : String)
    → is_empty id ≡ false
    → IsDistinct (pr_ticket_ids src)
      × (head? (pr_ticket_ids src) ≡ (
          ticket_from_branch src.branch
          or_else head? (scan_texts (src.commit_messages ++ src.title ∷ src.body ∷ []))))
      × (includes id (pr_ticket_ids src)
          ≡ includes id (branch_ids (ticket_from_branch src.branch))
            || includes id (scan_texts (src.commit_messages ++ src.title ∷ src.body ∷ [])))
unfolding pr_ticket_ids ticket_from_branch
pr_ticket_ids_claims src id full =
    let texts = scan_texts (src.commit_messages ++ src.title ∷ src.body ∷ []) in
    let all = scan_texts-IsFull (src.commit_messages ++ src.title ∷ src.body ∷ []) in
    elim (Option-cases (id_of_group (branch_group src.branch))) [
      | inl e ↦
          rw e (
            add_ids-IsDistinct [] texts tt,
            head_first texts all,
            includes-add_ids [] texts id full,
          )
      | inr (b, e) ↦
          let here = branch-IsFull (branch_group src.branch) b e in
          rw e (
            rw here (
              add_ids-IsDistinct (b ∷ []) texts (refl, tt),
              head_kept b [] texts,
              includes-add_ids (b ∷ []) texts id full,
            ))
    ]
