-- ===== src/Ticket/Labels/Tiers.antt =====
-- Laws of the tier: what the restore and the re-tier leave of the developer labels.
use dev_loop.Common.{
  String, true, false, not, Option, none, some, List, [], ◌∷◌, map, ◌≡◌, refl, ◌==◌, arith, filter,
  includes, dedup, Bool-cases, inl, inr, ◌∙◌, sym, ap,
}
use dev_loop.Store.{Db, actor_exists, State, todo}
use dev_loop.Ticket.Labels.{
  promote, is_dev_tier, apply_sensitive_retier, apply_tier_restore, is_handle, Restore,
  restore_from, assignee_after, rejected,
}
use dev_loop.Ticket.Labels.Laws.{includes-filter}

pub includes-dedup : (z : String) (xs : List String) → includes z (dedup xs) ≡ includes z xs
unfolding dedup
includes-dedup z [] = refl
includes-dedup z (x ∷ xs) = elim (Bool-cases (x == z)) [
  | inl same ↦ rw same
  | inr other ↦
      let kept_there = includes-filter z (λ y. not (x == y)) (dedup xs) (rw other) in
      ground (arith, kept_there, includes-dedup z xs)
]

junior_promoted : (xs : List String) → includes "junior-dev" (map promote xs) ≡ false
junior_promoted [] = refl
junior_promoted (x ∷ xs) = elim (Bool-cases (x == "junior-dev")) [
  | inl junior ↦ rw (junior) (junior_promoted xs)
  | inr other ↦ rw (other, other) (junior_promoted xs)
]

-- No junior on sensitive work: neither assigned nor by label.
abbrev pub NotJunior : Option String → List String → Type 0
NotJunior assignee labels =
    (is_handle "junior-dev" assignee ≡ false) × (includes "junior-dev" labels ≡ false)

pub retier-NotJunior :
    (db : Db) (assignee : Option String) (labels : List String)
    → actor_exists db "senior-dev" ≡ true
    → let r = apply_sensitive_retier db assignee labels in
      includes "sensitive" r.labels ≡ true → NotJunior r.assignee r.labels
unfolding apply_sensitive_retier
retier-NotJunior db assignee labels senior s =
    ground (arith, includes-dedup "junior-dev" (map promote labels), junior_promoted labels)

-- No developer tier by label.
abbrev pub NoTier : List String → Type 0
NoTier labels = (includes "junior-dev" labels ≡ false) × (includes "senior-dev" labels ≡ false)

filter-NoTier : (labels : List String) → filter is_dev_tier labels ≡ [] → NoTier labels
filter-NoTier labels h = (
  sym (includes-filter "junior-dev" is_dev_tier labels refl) ∙ ap (includes "junior-dev") h,
  sym (includes-filter "senior-dev" is_dev_tier labels refl) ∙ ap (includes "senior-dev") h,
)

abbrev pub NotRejected : Restore → Type 0
NotRejected (rejected r) = ⊥
NotRejected _ = Unit

settled_from :
    (db : Db) (labels tiers : List String)
    → filter is_dev_tier labels ≡ tiers
    → NotRejected (restore_from tiers)
    → let r = apply_sensitive_retier db (assignee_after (restore_from tiers) none) labels in
      r.assignee ≡ none → NoTier r.labels
unfolding restore_from apply_sensitive_retier
settled_from db labels [] e n h = let tiers = filter-NoTier labels e in ground (arith, tiers)
settled_from db labels (l ∷ []) e n h = ground arith
settled_from db labels (l ∷ m ∷ ls) e n h = absurd n

-- A Todo ticket that nobody has after the restore and the re-tier carries no developer tier.
pub settled_NoTier :
    (db : Db) (state : State) (assignee : Option String) (labels : List String)
    → let restore = apply_tier_restore state assignee labels in
      NotRejected restore
      → let r = apply_sensitive_retier db (assignee_after restore assignee) labels in
        state ≡ todo → r.assignee ≡ none → NoTier r.labels
unfolding apply_tier_restore
settled_NoTier db todo none labels n e h =
    settled_from db labels (filter is_dev_tier labels) refl n h
settled_NoTier db todo (some a) labels n e h = unfold apply_sensitive_retier in ground arith
settled_NoTier db s a labels n e h = absurd (ground arith)
