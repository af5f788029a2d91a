-- ===== src/Db/ObjectNodes/Forest.antt =====
-- src/db/repositories/object-node-repository.ts: the rows as a forest, and what `computeDepth` computes.
use opcua_light_server.Prelude.{
  ℕ, zero, suc, ◌+◌, ◌≤◌, ◌≡◌, refl, Bool, true, false, Option, none, some, List, [], ◌∷◌, arith,
  length, String, str_eq, eq_iff, is_some, if◌then◌else◌, Option-cases, inl, inr,
}
use opcua_light_server.Db.Tables.{ObjectNodeRow, find_object_node}
use opcua_light_server.Db.ObjectNodes.{climb}

abbrev pub is_found : String → List ObjectNodeRow → Bool
is_found id rows = is_some (find_object_node id rows)

abbrev pub has_parent : Option String → List ObjectNodeRow → Bool
has_parent none rows = true
has_parent (some p) rows = is_found p rows

-- Every row has an id of its own that is not empty, and its parent is an older row.
abbrev pub IsForest : List ObjectNodeRow → Type 0
IsForest [] = Unit
IsForest (r ∷ rows) =
    (is_found r.id rows ≡ false)
    × (str_eq r.id "" ≡ false)
    × (has_parent r.parent_object_node_id rows ≡ true)
    × IsForest rows

-- The number of ancestors of a row, itself included; 0 without such a row.
unfoldable pub depth : String → List ObjectNodeRow → ℕ
depth id [] = 0
depth id (r ∷ rows) =
    let under : ℕ = elim r.parent_object_node_id [ none ↦ 1 | some p ↦ suc (depth p rows) ] in
    if str_eq r.id id then under else depth id rows

-- The depth of a row with this parent.
abbrev pub above : Option String → List ObjectNodeRow → ℕ
above none rows = 1
above (some p) rows = suc (depth p rows)

pub parent-is_found :
    (rows : List ObjectNodeRow) (id p : String) (r : ObjectNodeRow)
    → IsForest rows
    → find_object_node id rows ≡ some r
    → r.parent_object_node_id ≡ some p
    → is_found p rows ≡ true
unfolding find_object_node
parent-is_found [] id p r v e h = cc
parent-is_found (s ∷ rows) id p r v e h = ground (arith, parent-is_found rows id p r v.3)

-- A new row changes no climb from an older one.
pub climb-∷ :
    (fuel : ℕ) (r : ObjectNodeRow) (rows : List ObjectNodeRow) (id : String) (d : ℕ)
    → IsForest (r ∷ rows)
    → is_found id rows ≡ true
    → climb fuel (r ∷ rows) id d ≡ climb fuel rows id d
unfolding climb find_object_node
climb-∷ zero r rows id d v h = refl
climb-∷ (suc fuel) r rows id d v h = elim (Option-cases (find_object_node id rows)) [
  | inl e ↦ ground (arith, e)
  | inr (q, e) ↦ elim (Option-cases q.parent_object_node_id) [
    | inl e' ↦ ground (arith, e, e', eq_iff r.id id)
    | inr (p, e') ↦ ground (
      arith,
      e,
      e',
      eq_iff r.id id,
      parent-is_found rows id p q v.3 e e',
      climb-∷ fuel r rows p (suc d) v,
    )
  ]
]

-- The loop ends within as many rounds as there are rows, and adds the depth.
pub climb-depth :
    (fuel : ℕ) (rows : List ObjectNodeRow) (id : String) (d : ℕ)
    → IsForest rows
    → is_found id rows ≡ true
    → length rows ≤ fuel
    → climb fuel rows id (suc d) ≡ some (d + depth id rows)
unfolding climb find_object_node depth
climb-depth fuel [] id d v h l = ground (arith)
climb-depth zero (r ∷ rows) id d v h l = ground (arith)
climb-depth (suc fuel) (r ∷ rows) id d v h l = elim (Option-cases r.parent_object_node_id) [
  | inl e ↦ ground (
    arith,
    e,
    eq_iff r.id id,
    climb-depth (suc fuel) rows id d v.3,
    climb-∷ (suc fuel) r rows id (suc d) v,
  )
  | inr (p, e) ↦ ground (
    arith,
    e,
    eq_iff r.id id,
    climb-depth (suc fuel) rows id d v.3,
    climb-∷ (suc fuel) r rows id (suc d) v,
    climb-depth fuel rows p (suc d) v.3,
    climb-∷ fuel r rows p (suc (suc d)) v,
  )
]

-- The depth of a row is one more than that of its parent.
pub depth-parent :
    (rows : List ObjectNodeRow) (id : String) (r : ObjectNodeRow)
    → IsForest rows
    → find_object_node id rows ≡ some r
    → depth id rows ≡ above r.parent_object_node_id rows
unfolding find_object_node depth
depth-parent [] id r v e = cc
depth-parent (s ∷ rows) id r v e = elim (Option-cases r.parent_object_node_id) [
  | inl e' ↦ ground (arith, e', depth-parent rows id r v.3)
  | inr (p, e') ↦ ground (
    arith,
    e',
    depth-parent rows id r v.3,
    eq_iff s.id id,
    eq_iff s.id p,
    parent-is_found rows id p r v.3,
  )
]

-- A row that is not there has no descendants.
pub depth-zero :
    (rows : List ObjectNodeRow) (id : String) → is_found id rows ≡ false → depth id rows ≡ 0
unfolding find_object_node depth
depth-zero [] id e = refl
depth-zero (s ∷ rows) id e = ground (arith, depth-zero rows id)
