-- ===== src/Blockers/Live.antt =====
-- Which blockers are live: hub/src/blocked-by.ts.
use dev_loop.Common.{
  String, Bool, true, false, not, ◌&&◌, List, [], ◌∷◌, ◌≡◌, refl, ◌∙◌, ap, ◌==◌, eq_iff, arith,
  filter, includes, if◌then◌else◌,
}
use dev_loop.Ticket.Labels.Laws.{includes-append}
use dev_loop.Blockers.{
  Kind, block, unblock, Marker, apply_id, apply_ids, fold_markers, parse_marker_lines, ReadComment,
  readable, live_blocker_ids,
}

abbrev is_block : Kind → Bool
is_block block = true
is_block unblock = false

-- Is an id live by the last marker that names it; `before` is for an id that none names.
unfoldable pub last_says : String → List Marker → Bool → Bool
last_says id [] before = before
last_says id (m ∷ ms) before =
    last_says id ms (if includes id m.ids then is_block m.kind else before)

includes-filter_out :
    (x id : String) (xs : List String)
    → includes x (filter (λ y. not (y == id)) xs) ≡ (includes x xs && not (x == id))
includes-filter_out x id [] = refl
includes-filter_out x id (y ∷ ys) =
    ground (arith, includes-filter_out x id ys, eq_iff y id, eq_iff y x, eq_iff x id)

apply_id-includes :
    (kind : Kind) (id x : String) (live : List String)
    → includes x (apply_id kind id live) ≡ (if id == x then is_block kind else includes x live)
unfolding apply_id
apply_id-includes block id x live =
    ground (arith, includes-append x live (id ∷ []), eq_iff id x, ap (λ k. includes k live))
apply_id-includes unblock id x live =
    ground (arith, includes-filter_out x id live, eq_iff id x, eq_iff x id)

apply_ids-includes :
    (kind : Kind) (ids : List String) (x : String) (live : List String)
    → includes x (apply_ids kind ids live)
      ≡ (if includes x ids then is_block kind else includes x live)
unfolding apply_ids
apply_ids-includes kind [] x live = refl
apply_ids-includes kind (id ∷ ids) x live =
    ground (
      arith,
      apply_ids-includes kind ids x (apply_id kind id live),
      apply_id-includes kind id x live,
    )

fold_markers-includes :
    (ms : List Marker) (x : String) (live : List String)
    → includes x (fold_markers ms live) ≡ last_says x ms (includes x live)
unfolding fold_markers last_says
fold_markers-includes [] x live = refl
fold_markers-includes (m ∷ ms) x live =
    fold_markers-includes ms x (apply_ids m.kind m.ids live)
    ∙ ap (last_says x ms) (apply_ids-includes m.kind m.ids x live)

-- An id is a live blocker exactly when the last marker that names it, in the comments that were read
-- whole, is a `Blocked-by:`.
pub live_by_last_marker :
    (comments : List ReadComment) (id : String)
    → includes id (live_blocker_ids comments).live
      ≡ last_says id (parse_marker_lines (readable comments)) false
unfolding live_blocker_ids
live_by_last_marker comments id =
    fold_markers-includes (parse_marker_lines (readable comments)) id []
