-- ===== src/Graph/Report/Total.antt =====
-- What the report of the dependency graph says: hub/src/dependency-graph.ts.
use dev_loop.Common.{
  String, Bool, true, false, not, ◌&&◌, ◌||◌, Option, some, List, [], ◌∷◌, ◌++◌, ◌≡◌, refl, ◌∙◌, ap,
  ◌==◌, map, filter, includes, any, dedup, sort_texts, includes-sort_texts, Bool-cases, inl, inr,
  arith, eq_iff,
}
use mathlib.Core.Path.{subst}
use dev_loop.Common.Sorting.{insert_by, sort_by}
use dev_loop.Store.{Db, Ticket}
use dev_loop.Ticket.Labels.Laws.{includes-append}
use dev_loop.Ticket.Labels.Tiers.{includes-dedup}
use dev_loop.Graph.FanOut.{Edges, transitive_reverse_fan_out}
use dev_loop.Graph.FanOut.Reaches.{fan_out_total}
use dev_loop.Graph.Cycles.{find_cyclic}
use dev_loop.Graph.Cycles.Sound.Ends.{find_cyclic_sound}
use dev_loop.Graph.Report.{
  DanglingRef, Report, assemble, assemble_from, dependency_graph, forward_of, missing_ids,
  refs_of_row, refs_of_rows, duplicate_ids, ref_not_after, ref_where, absent_ids, RefField,
  by_relation, by_duplicate, id_of_row,
}

any-insert_by {ℓ} :
    {A : Type ℓ} (le : A → A → Bool) (p : A → Bool) (x : A) (xs : List A)
    → any p (insert_by le x xs) ≡ p x || any p xs
unfolding insert_by
any-insert_by le p x [] = refl
any-insert_by le p x (y ∷ ys) = elim (Bool-cases (le x y)) [
  | inl e ↦ rw e refl
  | inr e ↦ rw e (ground (arith, any-insert_by le p x ys))
]

any-sort_by {ℓ} :
    {A : Type ℓ} (le : A → A → Bool) (p : A → Bool) (xs : List A) → any p (sort_by le xs) ≡ any p xs
unfolding sort_by
any-sort_by le p [] = refl
any-sort_by le p (x ∷ xs) =
    any-insert_by le p x (sort_by le xs) ∙ ap (λ b. p x || b) (any-sort_by le p xs)

includes-missing_ids :
    (id : String) (rs : List DanglingRef)
    → includes id (missing_ids rs) ≡ any (λ r. includes id r.missing) rs
unfolding missing_ids
includes-missing_ids id [] = refl
includes-missing_ids id (r ∷ rs) =
    includes-append id r.missing (missing_ids rs)
    ∙ ap (λ b. includes id r.missing || b) (includes-missing_ids id rs)

includes-missing-append :
    (id : String) (xs ys : List DanglingRef)
    → any (λ r. includes id r.missing) (xs ++ ys)
      ≡ any (λ r. includes id r.missing) xs || any (λ r. includes id r.missing) ys
includes-missing-append id [] ys = refl
includes-missing-append id (x ∷ xs) ys = ground (arith, includes-missing-append id xs ys)

any-ref_where :
    (id t : String) (column : RefField) (ms : List String)
    → any (λ r. includes id r.missing) (ref_where t column ms) ≡ includes id ms
any-ref_where id t column [] = refl
any-ref_where id t column (m ∷ ms) = ground arith

includes-absent_ids :
    (known ids : List String) (id : String)
    → includes id (absent_ids known ids) ≡ not (includes id known) && includes id ids
includes-absent_ids known [] id = ground arith
includes-absent_ids known (x ∷ ids) id = elim (Bool-cases (x == id)) [
  | inl same ↦
      let e : x ≡ id = (eq_iff x id).0 same in
      elim (Bool-cases (includes x known)) [
        | inl there ↦ rw there (
            ground (
              arith,
              includes-absent_ids known ids id,
              subst (λ y. includes y known ≡ true) e there,
            ))
        | inr gone ↦ rw gone (ground (arith, same, subst (λ y. includes y known ≡ false) e gone))
      ]
  | inr other ↦ elim (Bool-cases (includes x known)) [
    | inl there ↦ rw there (ground (arith, includes-absent_ids known ids id, other))
    | inr gone ↦ rw gone (ground (arith, includes-absent_ids known ids id, other))
  ]
]

-- The ticket refers to the id as related or as what it duplicates.
abbrev pub refers : String → Ticket → Bool
refers id t = includes id t.related_to || includes id (duplicate_ids t.duplicate_of)

module _ (known : List String) (id : String) where
  any-refs_of_row :
      (t : Ticket)
      → any (λ r. includes id r.missing) (refs_of_row known t)
        ≡ not (includes id known) && refers id t
  unfolding refs_of_row
  any-refs_of_row t =
      let related = absent_ids known t.related_to in
      let twice = absent_ids known (duplicate_ids t.duplicate_of) in
      includes-missing-append id (ref_where t.id by_relation (sort_texts related))
        (ref_where t.id by_duplicate twice)
      ∙ ground (
        arith,
        any-ref_where id t.id by_relation (sort_texts related),
        includes-sort_texts id related,
        any-ref_where id t.id by_duplicate twice,
        includes-absent_ids known t.related_to id,
        includes-absent_ids known (duplicate_ids t.duplicate_of) id,
      )

  any-refs_of_rows :
      (ts : List Ticket)
      → any (λ r. includes id r.missing) (refs_of_rows known ts)
        ≡ not (includes id known) && any (refers id) ts
  unfolding refs_of_rows
  any-refs_of_rows [] = ground arith
  any-refs_of_rows (t ∷ ts) =
      includes-missing-append id (refs_of_row known t) (refs_of_rows known ts)
      ∙ ground (arith, any-refs_of_row t, any-refs_of_rows ts)

-- The tickets of a project.
abbrev pub rows_of : Db → String → List Ticket
rows_of db project_id = filter (λ t. t.project_id == project_id) db.tickets

module _ (not_after : String → String → Bool) (db : Db) (project_id : String) where
  refs_exact :
      (cyclic : List String) (reverse : Edges) (id : String)
      → includes id (assemble not_after db project_id cyclic reverse).dangling_ref_ids
        ≡ not (includes id (map id_of_row (rows_of db project_id)))
          && any (refers id) (rows_of db project_id)
  unfolding assemble
  refs_exact cyclic reverse id =
      let rows = rows_of db project_id in
      let known = map id_of_row rows in
      let refs = sort_by (ref_not_after not_after) (refs_of_rows known rows) in
      includes-sort_texts id (dedup (missing_ids refs))
      ∙ includes-dedup id (missing_ids refs)
      ∙ includes-missing_ids id refs
      ∙ any-sort_by (ref_not_after not_after) (λ r. includes id r.missing) (refs_of_rows known rows)
      ∙ any-refs_of_rows known id rows

  found :
      (c : Option (List String)) (m : Option Edges) (cyclic : List String) (reverse : Edges)
      → c ≡ some cyclic
      → m ≡ some reverse
      → assemble_from not_after db project_id c m
        ≡ some (assemble not_after db project_id cyclic reverse)
  unfolding assemble_from
  found c m cyclic reverse e1 e2 = rw (e1, e2) refl

-- The report of every board is made, within the fuel of its two searches, and its dangling references are
-- exactly the ids that a ticket of the project refers to and no ticket of the project has.
pub report_total :
    (not_after : String → String → Bool) (db : Db) (project_id id : String)
    → (r : Report) × (dependency_graph not_after db project_id ≡ some r)
      × (includes id r.dangling_ref_ids
          ≡ not (includes id (map id_of_row (rows_of db project_id)))
            && any (refers id) (rows_of db project_id))
unfolding dependency_graph
report_total not_after db project_id id =
    let forward = forward_of db project_id in
    let (cyclic, c, _) = find_cyclic_sound forward in
    let (reverse, m, _) = fan_out_total forward in
    (
      assemble not_after db project_id cyclic reverse,
      found not_after db project_id (find_cyclic forward) (transitive_reverse_fan_out forward)
          cyclic reverse c m,
      refs_exact not_after db project_id cyclic reverse id,
    )
