-- ===== src/Db/ObjectNodes/Tests.antt =====
-- src/db/repositories/object-node-repository.ts: runs of the operations, and the theorems at them.
use opcua_light_server.Prelude.{
  ◌≡◌, ◌≢◌, Option, ◌≤◌, refl, none, some, [], ◌∷◌, List, arith, String, codes, map, eq_iff,
}
use opcua_light_server.Db.Tables.{NamespaceRow, ObjectNodeRow, NodeRow, Tables, find_object_node}
use opcua_light_server.Db.ObjectNodes.{
  CreateObjectNodeInput, reassignment_conflict, deleted, failed, compute_depth, move_node, delete,
  conflicts, reassigned, ObjectNodeCall, creates, deletes, run,
}
use opcua_light_server.Db.ObjectNodes.Forest.{depth, IsForest}
use opcua_light_server.Db.ObjectNodes.Hierarchy.{compute_depth-depth, IsHierarchy, run-IsHierarchy}
use opcua_light_server.Db.ObjectNodes.Reassignment.{delete-same_name, delete-find}

abbrev plant : NamespaceRow
plant = record { id = "n1"; name = codes "Plant"; description = none; uri = codes "urn:plant" }

abbrev row : String → String → String → ObjectNodeRow
row id parent name = record {
  id = id;
  namespace_id = "n1";
  parent_object_node_id = some parent;
  name = codes name;
}

abbrev root_row : ObjectNodeRow
root_row = record {
  id = "a";
  namespace_id = "n1";
  parent_object_node_id = none;
  name = codes "pump";
}

abbrev variable : NodeRow
variable = record {
  id = "v";
  namespace_id = "n1";
  object_node_id = some "b";
  name = codes "speed";
  data_type = codes "Double";
  initial_value = none;
  description = none;
}

-- `b` and its child `c` have one name.
abbrev tables : Tables
tables = record {
  namespaces = plant ∷ [];
  object_nodes = row "c" "b" "motor" ∷ row "b" "a" "motor" ∷ root_row ∷ [];
  nodes = variable ∷ [];
}

-- Five levels.
abbrev deep : Tables
deep = record tables {
  object_nodes =
      row "e" "d" "x" ∷ row "d" "c" "x" ∷ row "c" "b" "x" ∷ row "b" "a" "y" ∷ root_row ∷ [];
}

tables-IsForest : IsForest tables.object_nodes
unfolding find_object_node
tables-IsForest = (refl, refl, refl, (refl, refl, refl, (refl, refl, refl, tt)))

compute_depth-depth_example : compute_depth tables.object_nodes "c" ≡ some 3
unfolding find_object_node depth
compute_depth-depth_example = compute_depth-depth tables.object_nodes "c" tables-IsForest refl

delete-same_name_example : delete "b" tables ≡ (
  record tables { nodes = map (move_node "b" (some "a")) tables.nodes },
  failed reassignment_conflict,
)
unfolding find_object_node
delete-same_name_example =
    delete-same_name tables "b" (row "b" "a" "motor") (row "c" "b" "motor") tables-IsForest refl
      refl refl refl refl

tables-IsHierarchy : IsHierarchy tables
unfolding find_object_node depth
tables-IsHierarchy = (tables-IsForest, (λ id. ground (arith)), refl)

deep-IsHierarchy : IsHierarchy deep
unfolding find_object_node depth
deep-IsHierarchy = (
  (
    refl,
    refl,
    refl,
    (refl, refl, refl, (refl, refl, refl, (refl, refl, refl, (refl, refl, refl, tt)))),
  ),
  (λ id. ground (arith)),
  refl,
)

abbrev sixth : CreateObjectNodeInput
sixth = record { namespace_id = "n1"; parent_object_node_id = some "e"; name = codes "x" }

abbrev calls : List ObjectNodeCall
calls = creates "f" sixth ∷ deletes "d" ∷ []

run-IsHierarchy_example : IsHierarchy (run calls deep)
run-IsHierarchy_example = run-IsHierarchy calls deep refl deep-IsHierarchy

abbrev parent_b : Option String
parent_b = some "b"

c_is_not_b : ◌≢◌ {A = String} "b" "c"
c_is_not_b e = ground (arith, (eq_iff "b" "c").1 e)

delete-find_example :
    ((delete "b" deep).1 ≡ deleted)
    × (find_object_node "b" (delete "b" deep).0.object_nodes ≡ none)
    × ((s' : ObjectNodeRow) × (find_object_node "c" (delete "b" deep).0.object_nodes ≡ some s')
        × (s'.name ≡ codes "x")
        × (s'.namespace_id ≡ "n1")
        × (parent_b ≡ parent_b → s'.parent_object_node_id ≡ some "a")
        × (¬ (parent_b ≡ parent_b) → s'.parent_object_node_id ≡ some "b")
        × (depth "c" (delete "b" deep).0.object_nodes ≤ 3))
unfolding find_object_node depth conflicts reassigned
delete-find_example =
    delete-find deep "b" "c" (row "b" "a" "y") (row "c" "b" "x") deep-IsHierarchy.0 refl refl
      c_is_not_b refl
