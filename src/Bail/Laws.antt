-- ===== src/Bail/Laws.antt =====
-- Laws of the bail-shape marker.
use dev_loop.Common.{String, true, Option, none, List, [], ◌∷◌, ◌++◌, ◌≡◌, refl, ◌or_else◌}
use dev_loop.Bail.{
  BailShape, token, parse_bail_shape, latest_from, latest_bail_shape, is_bail_label, info_needed,
  decision_needed, scope_design, external_prereq, fix_exhausted,
}

latest_from-append :
    (o : Option BailShape) (xs : List String) (body : String)
    → latest_from o (xs ++ body ∷ []) ≡ (parse_bail_shape body or_else latest_from o xs)
unfolding latest_from
latest_from-append o [] body = refl
latest_from-append o (x ∷ xs) body = latest_from-append (parse_bail_shape x or_else o) xs body

-- A new last comment decides the shape when it carries one, and leaves it as it was otherwise.
pub latest_bail_shape-append :
    (xs : List String) (body : String)
    → latest_bail_shape (xs ++ body ∷ []) ≡ (parse_bail_shape body or_else latest_bail_shape xs)
unfolding latest_bail_shape
latest_bail_shape-append xs body = latest_from-append none xs body

-- Each shape's token is a bail label.
pub token-is_bail_label : (b : BailShape) → is_bail_label (token b) ≡ true
unfolding is_bail_label
token-is_bail_label info_needed = refl
token-is_bail_label decision_needed = refl
token-is_bail_label scope_design = refl
token-is_bail_label external_prereq = refl
token-is_bail_label fix_exhausted = refl
