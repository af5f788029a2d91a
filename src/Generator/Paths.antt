-- ===== src/Generator/Paths.antt =====
-- src/config-generator/index.ts: the loop of `computeObjectNodePath` over the rows that the repository leaves.
use opcua_light_server.Prelude.{
  ℕ, zero, suc, ◌≤◌, ◌≡◌, refl, true, some, List, [], ◌∷◌, all, arith, String, Text, is_some, Dict,
  lookup, Option-cases, inl, inr,
}
use opcua_light_server.Db.Tables.{ObjectNodeRow, Tables, find_object_node}
use opcua_light_server.Db.ObjectNodes.{max_depth, ObjectNodeCall, run}
use opcua_light_server.Db.ObjectNodes.Forest.{IsForest, depth, depth-parent}
use opcua_light_server.Db.ObjectNodes.Hierarchy.{IsHierarchy, has_id, run-IsHierarchy}
use opcua_light_server.Generator.{node_map, collect_parts, compute_object_node_path}

-- The rows are some of the table's, as for each `SELECT` without a change between.
abbrev pub IsSelection : Dict ObjectNodeRow → List ObjectNodeRow → Type 0
IsSelection m rows =
    (id : String) (r : ObjectNodeRow) → lookup id m ≡ some r → find_object_node id rows ≡ some r

-- The rounds that suffice are the depth and one more, and further ones change nothing.
pub collect_parts-depth :
    (rounds fuel : ℕ) (m : Dict ObjectNodeRow) (rows : List ObjectNodeRow) (id : String)
    (parts : List Text)
    → IsForest rows
    → IsSelection m rows
    → depth id rows ≤ rounds
    → rounds ≤ fuel
    → (collect_parts (suc fuel) m id parts ≡ collect_parts (suc rounds) m id parts)
      × (is_some (collect_parts (suc rounds) m id parts) ≡ true)
unfolding collect_parts
collect_parts-depth zero fuel m rows id parts v h d l = elim (Option-cases (lookup id m)) [
  | inl e ↦ ground (arith, e)
  | inr (r, e) ↦ elim (Option-cases r.parent_object_node_id) [
    | inl e' ↦ ground (arith, e', depth-parent rows id r v (h id r e))
    | inr (p, e') ↦ ground (arith, e', depth-parent rows id r v (h id r e))
  ]
]
collect_parts-depth (suc rounds) zero m rows id parts v h d l = ground (arith)
collect_parts-depth (suc rounds) (suc fuel) m rows id parts v h d l =
    elim (Option-cases (lookup id m)) [
      | inl e ↦ ground (arith, e)
      | inr (r, e) ↦ elim (Option-cases r.parent_object_node_id) [
        | inl e' ↦ ground (arith, e, e')
        | inr (p, e') ↦ ground (
          arith,
          e,
          e',
          depth-parent rows id r v (h id r e),
          collect_parts-depth rounds fuel m rows p (r.name ∷ parts) v h,
        )
      ]
    ]

-- The rows of any namespace, after any calls of the object-node repository with new ids that are not
-- empty, from tables whose object nodes are a forest of at most five levels:
-- `computeObjectNodePath` ends within six rounds, whatever id it starts from.
pub compute_object_node_path-run :
    (calls : List ObjectNodeCall) (t : Tables) (rows : List ObjectNodeRow) (fuel : ℕ) (id : String)
    (name : Text)
    → all has_id calls ≡ true
    → IsHierarchy t
    → IsSelection (node_map rows) (run calls t).object_nodes
    → suc max_depth ≤ fuel
    → (compute_object_node_path fuel id rows name
        ≡ compute_object_node_path (suc max_depth) id rows name)
      × (is_some (compute_object_node_path (suc max_depth) id rows name) ≡ true)
unfolding compute_object_node_path
compute_object_node_path-run calls t rows zero id name c i h l = ground (arith)
compute_object_node_path-run calls t rows (suc fuel) id name c i h l =
    let v : IsHierarchy (run calls t) = run-IsHierarchy calls t c i in
    let e =
      collect_parts-depth max_depth fuel (node_map rows) (run calls t).object_nodes id [] v.0 h
        (v.1 id) (ground (arith, l)) in
    elim (Option-cases (collect_parts (suc max_depth) (node_map rows) id [])) [
      | inl n ↦ ground (arith, n, e)
      | inr (parts, n) ↦ rw (compute_object_node_path, e.0, n) (refl, refl)
    ]
