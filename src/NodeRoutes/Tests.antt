-- ===== src/NodeRoutes/Tests.antt =====
-- src/api/routes/nodes.ts: an import of two rows, and the theorems at a small address space.
use opcua_light_server.Prelude.{
  ◌≡◌, refl, Option, none, some, List, [], ◌∷◌, arith, Text, codes, trim, split,
}
use opcua_light_server.Csv.{parse_csv_line}
use opcua_light_server.Db.Tables.{
  NamespaceRow, ObjectNodeRow, Tables, find_object_node, find_namespace,
}
use opcua_light_server.Db.Nodes.{create, validate_create, insert_node}
use opcua_light_server.NodeRoutes.{
  RowResult, data_type_invalid, import_rows, import_row, find_namespace_by_name,
  find_object_node_by_path, walk, non_empty, find_child, cell,
}
use opcua_light_server.NodeRoutes.Paths.{IsTidy, found_again, found_again_id}
use opcua_light_server.NodeRoutes.Import.{AreReported, import_rows-nodes}

abbrev plant : NamespaceRow
plant = record { id = "n"; name = codes "P"; description = none; uri = codes "urn:p" }

abbrev pump : ObjectNodeRow
pump = record { id = "a"; namespace_id = "n"; parent_object_node_id = none; name = codes "pump" }

abbrev motor : ObjectNodeRow
motor = record {
  id = "b";
  namespace_id = "n";
  parent_object_node_id = some "a";
  name = codes "motor";
}

abbrev rows : List ObjectNodeRow
rows = motor ∷ pump ∷ []

rows-IsTidy : IsTidy "n" rows
unfolding find_object_node trim
rows-IsTidy id r e n = (ground (arith, e), λ p s o x. ground (arith, x))

found_again_id_example : found_again rows "n" "b" ≡ some "b"
unfolding find_object_node
found_again_id_example =
    found_again_id rows "n" "b" motor (refl, refl, refl, (refl, refl, refl, tt)) (refl, (refl, tt))
      rows-IsTidy refl refl

abbrev tables : Tables
tables = record { namespaces = plant ∷ []; object_nodes = rows; nodes = [] }

abbrev lines : List Text
lines = codes "speed,P,pump/motor,Double,1,fast" ∷ codes "state,P,,Bool" ∷ []

abbrev results : List RowResult
results = record { row = 2; error = none } ∷ record { row = 3; error = some data_type_invalid } ∷ []

abbrev keep : Text → Text
keep t = t

abbrev parse : Text → Option Text
parse t = some t

import_rows-nodes_example :
    AreReported
      (λ i. "v")
      2
      lines
      results
      []
      (import_rows parse keep keep (λ i. "v") 2 lines tables).0.nodes
unfolding import_rows import_row find_namespace_by_name find_object_node_by_path walk non_empty
    find_child cell create validate_create insert_node find_object_node find_namespace trim split
    parse_csv_line
import_rows-nodes_example = import_rows-nodes parse keep keep (λ i. "v") 2 lines tables results refl
