-- ===== src/Generator/Tests.antt =====
-- src/config-generator/index.ts: a configuration, and the theorems at it.
use opcua_light_server.Prelude.{
  ℕ, ◌≡◌, refl, true, Bool, Option, none, some, [], ◌∷◌, arith, Text, codes, is_some, lookup,
  insert,
}
use opcua_light_server.Prelude.Json.{Json, str}
use opcua_light_server.Db.Tables.{ObjectNodeRow, NodeRow, Tables, find_object_node}
use opcua_light_server.Db.Security.{SecurityConfigRow}
use opcua_light_server.Db.ObjectNodes.{deletes, run, step, delete, drop_row, conflicts, reassigned}
use opcua_light_server.Db.ObjectNodes.Forest.{depth}
use opcua_light_server.Db.ObjectNodes.Hierarchy.{IsHierarchy}
use opcua_light_server.Generator.{
  application_uri, non_empty, build_security_config, node_map, collect_parts,
  compute_object_node_path, join_dots,
}
use opcua_light_server.Generator.Nodes.{
  NodeConfig, build_node, object_node, leaf, child, to_object_node_configs, subtrees,
}
use opcua_light_server.Generator.Paths.{IsSelection, compute_object_node_path-run}
use opcua_light_server.Generator.Properties.{build_security_config-mode, node_id-name}

abbrev resolve : Text → Text
resolve path = path

abbrev exists : Text → Bool
exists path = true

abbrev secure : SecurityConfigRow
secure = record {
  mode = codes "Sign";
  certificate_path = some (codes "c.der");
  private_key_path = some (codes "k.pem");
}

build_security_config-mode_example :
    (build_security_config resolve exists (some secure) ≡ (record {
      mode = codes "Sign";
      certificate_path = some (codes "c.der");
      private_key_path = some (codes "k.pem");
      application_uri = some application_uri;
      pki_trusted_path = some (codes "data/pki/trusted");
      pki_rejected_path = some (codes "data/pki/rejected");
    }))
    × (is_some (non_empty (some (codes "c.der"))) ≡ true)
    × (is_some (non_empty (some (codes "k.pem"))) ≡ true)
    × (exists (codes "data/pki/trusted") ≡ true)
    × (exists (codes "data/pki/rejected") ≡ true)
unfolding build_security_config
build_security_config-mode_example = build_security_config-mode resolve exists secure refl

abbrev pump : ObjectNodeRow
pump = record { id = "a"; namespace_id = "n"; parent_object_node_id = none; name = codes "pump" }

abbrev motor : ObjectNodeRow
motor = record {
  id = "b";
  namespace_id = "n";
  parent_object_node_id = some "a";
  name = codes "motor";
}

abbrev tables : Tables
tables = record { namespaces = []; object_nodes = motor ∷ pump ∷ []; nodes = [] }

subtrees_test :
    to_object_node_configs {N = ℕ} (λ text. none) (λ n. []) 6 (motor ∷ pump ∷ []) (codes "P")
    ≡ some (
        child
          (object_node
            (codes "pump")
            (codes "P.pump")
            (child (object_node (codes "motor") (codes "P.pump.motor") leaf) leaf))
          leaf)
unfolding to_object_node_configs subtrees compute_object_node_path collect_parts node_map lookup
    insert join_dots
subtrees_test = refl

tables-IsHierarchy : IsHierarchy tables
unfolding find_object_node depth
tables-IsHierarchy = ((refl, refl, refl, (refl, refl, refl, tt)), (λ id. ground (arith)), refl)

pump-IsSelection : IsSelection (node_map (pump ∷ [])) (run (deletes "b" ∷ []) tables).object_nodes
unfolding node_map lookup insert run step delete drop_row conflicts reassigned find_object_node
pump-IsSelection id r e = ground (arith, e)

compute_object_node_path-run_example :
    (compute_object_node_path 8 "a" (pump ∷ []) (codes "P")
      ≡ compute_object_node_path 6 "a" (pump ∷ []) (codes "P"))
    × (is_some (compute_object_node_path 6 "a" (pump ∷ []) (codes "P")) ≡ true)
compute_object_node_path-run_example =
    compute_object_node_path-run (deletes "b" ∷ []) tables (pump ∷ []) 8 "a" (codes "P") refl
      tables-IsHierarchy pump-IsSelection (ground (arith))

abbrev show : ℕ → Text
show n = codes "2"

abbrev parse : Text → Option (Json ℕ)
parse text = some (str text)

abbrev speed : NodeRow
speed = record {
  id = "v";
  namespace_id = "n";
  object_node_id = some "b";
  name = codes "speed";
  data_type = codes "Double";
  initial_value = none;
  description = none;
}

abbrev speed_config : NodeConfig ℕ
speed_config = record {
  name = codes "speed";
  node_id = codes "ns=2;s=P.pump.motor.speed";
  data_type = codes "Double";
  parent_path = codes "P.pump.motor";
  initial_value = none;
  connector_mapping = none;
  s7_mapping = none;
}

node_id-name_example :
    (codes "speed" ≡ codes "speed") × (codes "P.pump.motor" ≡ codes "P.pump.motor")
unfolding build_node compute_object_node_path collect_parts node_map lookup insert join_dots
node_id-name_example =
    node_id-name parse show 6 2 (codes "P") (motor ∷ pump ∷ []) [] speed speed speed_config
      speed_config refl refl refl refl refl
