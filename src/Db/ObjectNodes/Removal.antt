-- ===== src/Db/ObjectNodes/Removal.antt =====
-- src/db/repositories/object-node-repository.ts: the rows that `delete` leaves.
use opcua_light_server.Prelude.{
  suc, ◌≤◌, ◌≡◌, refl, true, not, ◌&&◌, Option, none, some, List, [], ◌∷◌, arith, map, String,
  str_eq, eq_iff, if◌then◌else◌, Bool-cases, if-rule, Option-cases, inl, inr,
}
use opcua_light_server.Db.Tables.{ObjectNodeRow, find_object_node}
use opcua_light_server.Db.ObjectNodes.{reassigned, move, drop_row}
use opcua_light_server.Db.ObjectNodes.Forest.{
  is_found, has_parent, IsForest, above, depth, parent-is_found, depth-parent, depth-zero,
}

-- The rows after the children of `id` moved to `parent` and `id` is deleted.
abbrev pub removed : String → Option String → List ObjectNodeRow → List ObjectNodeRow
removed id parent rows = drop_row id (map (move id parent) rows)

-- What is left of a row that was found.
abbrev pub moved : String → Option String → String → Option ObjectNodeRow → Option ObjectNodeRow
moved id parent q none = none
moved id parent q (some r) = if str_eq id q then none else some (move id parent r)

pub find-removed :
    (rows : List ObjectNodeRow) (id : String) (parent : Option String) (q : String)
    → find_object_node q (removed id parent rows) ≡ moved id parent q (find_object_node q rows)
unfolding find_object_node drop_row
find-removed [] id parent q = refl
find-removed (r ∷ rows) id parent q =
    ground (arith, find-removed rows id parent q, eq_iff r.id id, eq_iff id q, eq_iff r.id q)

pub is_found-removed :
    (rows : List ObjectNodeRow) (id : String) (parent : Option String) (q : String)
    → is_found q (removed id parent rows) ≡ (is_found q rows && not (str_eq id q))
is_found-removed rows id parent q = elim (Option-cases (find_object_node q rows)) [
  | inl e ↦ rw (find-removed rows id parent q, e)
  | inr (r, e) ↦ ground (arith, find-removed rows id parent q, e)
]

above-moved :
    (p : Option String) (rows rows' : List ObjectNodeRow)
    → ((q : String) → depth q rows' ≤ depth q rows)
    → above p rows' ≤ suc (above p rows)
above-moved none rows rows' l = ground (arith)
above-moved (some q) rows rows' l = ground (arith, l q)

module _ (id : String) (parent : Option String) where
  -- `parent` is the parent of the row `id`, where it is.
  abbrev pub HasRow : List ObjectNodeRow → Type 0
  HasRow rows =
      (r : ObjectNodeRow) → find_object_node id rows ≡ some r → r.parent_object_node_id ≡ parent

  pub tail-HasRow :
      (r : ObjectNodeRow) (rows : List ObjectNodeRow)
      → IsForest (r ∷ rows)
      → HasRow (r ∷ rows)
      → HasRow rows
  unfolding find_object_node
  tail-HasRow r rows v h q e = ground (arith, h q, eq_iff r.id id, e)

  -- The new parent is there, where the row is.
  pub removed-has_parent :
      (rows : List ObjectNodeRow)
      → IsForest rows
      → HasRow rows
      → is_found id rows ≡ true
      → has_parent parent (removed id parent rows) ≡ true
  removed-has_parent rows v h f = elim (Option-cases (find_object_node id rows)) [
    | inl e' ↦ ground (arith, e')
    | inr (r, e') ↦ elim (Option-cases r.parent_object_node_id) [
      | inl e ↦ rw (← h r e', e) refl
      | inr (p, e) ↦
          rw (← h r e', e)
            (ground (
              arith,
              e',
              e,
              h r e',
              is_found-removed rows id (some p) p,
              parent-is_found rows id p r v e' e,
              depth-parent rows id r v e',
              eq_iff id p,
            ))
    ]
  ]

  pub reassigned-has_parent :
      (rows : List ObjectNodeRow) (p : Option String)
      → IsForest rows
      → HasRow rows
      → has_parent p rows ≡ true
      → has_parent (reassigned id parent p) (removed id parent rows) ≡ true
  unfolding reassigned
  reassigned-has_parent rows none v h f = refl
  reassigned-has_parent rows (some p) v h f = elim (Bool-cases (str_eq p id)) [
    | inl e ↦ rw e (removed-has_parent rows v h (ground (arith, eq_iff p id)))
    | inr e ↦ rw e (ground (arith, is_found-removed rows id parent p, eq_iff id p, eq_iff p id))
  ]

  pub removed-IsForest :
      (rows : List ObjectNodeRow) → IsForest rows → HasRow rows → IsForest (removed id parent rows)
  unfolding drop_row
  removed-IsForest [] v h = tt
  removed-IsForest (r ∷ rows) v h =
      let t : HasRow rows = tail-HasRow r rows v h in
      let rest : IsForest (removed id parent rows) = removed-IsForest rows v.3 t in
      if-rule IsForest (str_eq r.id id) (λ e. rest)
        (λ e. (
          ground (arith, is_found-removed rows id parent r.id, v.0),
          v.1,
          reassigned-has_parent rows r.parent_object_node_id v.3 t v.2,
          rest,
        ))

  above-reassigned :
      (rows : List ObjectNodeRow) (p : Option String)
      → IsForest rows
      → HasRow rows
      → ((q : String) → depth q (removed id parent rows) ≤ depth q rows)
      → has_parent p rows ≡ true
      → above (reassigned id parent p) (removed id parent rows) ≤ above p rows
  unfolding reassigned
  above-reassigned rows none v h l f = ground (arith)
  above-reassigned rows (some p) v h l f = elim (Bool-cases (str_eq p id)) [
    | inl e ↦ elim (Option-cases (find_object_node id rows)) [
      | inl e' ↦ ground (arith, e', eq_iff p id)
      | inr (r, e') ↦
          rw (e, (eq_iff p id).0 e, depth-parent rows id r v e', h r e')
            (above-moved parent rows _ l)
    ]
    | inr e ↦ rw e (ground (arith, l p))
  ]

  pub depth-removed :
      (rows : List ObjectNodeRow) (q : String)
      → IsForest rows
      → HasRow rows
      → depth q (removed id parent rows) ≤ depth q rows
  unfolding drop_row depth
  depth-removed [] q v h = ground (arith)
  depth-removed (r ∷ rows) q v h =
      let t : HasRow rows = tail-HasRow r rows v h in
      let l : (q : String) → depth q (removed id parent rows) ≤ depth q rows =
        λ q. depth-removed rows q v.3 t in
      ground (
        arith,
        l q,
        above-reassigned rows r.parent_object_node_id v.3 t l v.2,
        eq_iff r.id id,
        eq_iff r.id q,
        is_found-removed rows id parent q,
        depth-zero (removed id parent rows) q,
        v.0,
      )
