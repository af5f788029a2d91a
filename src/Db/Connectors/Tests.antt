-- ===== src/Db/Connectors/Tests.antt =====
-- src/db/repositories/connector-repository.ts: calls on a connection, and the theorems at them.
use opcua_light_server.Prelude.{refl, none, some, List, [], ◌∷◌, arith, String, codes, lookup}
use opcua_light_server.Db.Connectors.{
  ConnectionRow, ConnectorTables, CreateMappingRequest, UpdateMappingRequest, BulkResult,
  node_duplicate, address_duplicate, creates, updates, deletes_connection, new_mapping, run,
}
use opcua_light_server.Db.Connectors.Consistency.{IsConsistent, run-IsConsistent}

abbrev plc : ConnectionRow
plc = record {
  type = codes "s7";
  name = codes "plc";
  params = codes "{}";
  polling_interval_ms = 1000;
  reconnect_interval_ms = 5000;
  enabled = 1;
}

abbrev tables : ConnectorTables
tables = record { nodes = "n" ∷ "o" ∷ []; connections = ("c", plc) ∷ []; mappings = [] }

abbrev request : String → String → CreateMappingRequest
request node address = record {
  connection_id = "c";
  node_id = some node;
  device_address = codes address;
  description = none;
}

tables-IsConsistent : IsConsistent tables
unfolding lookup
tables-IsConsistent = (
  tt,
  (λ n i j r s e f p q. ground (arith, e)),
  (λ c a i j r s e f p q. ground (arith, e)),
  (λ i r e. ground (arith, e)),
  refl,
)

abbrev to_other : UpdateMappingRequest
to_other = record { device_address = some (codes "DB2"); node_id = some "o"; description = none }

run-IsConsistent_example : IsConsistent (
    run
      (creates "1" (request "n" "DB1")
        ∷ creates "2" (request "n" "DB2")
        ∷ updates "1" to_other
        ∷ deletes_connection "c"
        ∷ [])
      tables)
run-IsConsistent_example =
    run-IsConsistent
      (creates "1" (request "n" "DB1")
        ∷ creates "2" (request "n" "DB2")
        ∷ updates "1" to_other
        ∷ deletes_connection "c"
        ∷ [])
      tables tables-IsConsistent

abbrev requests : List (String × CreateMappingRequest)
requests =
    ("1", request "n" "DB1")
    ∷ ("2", request "n" "DB2")
    ∷ ("3", request "o" "DB1")
    ∷ ("4", request "o" "DB4")
    ∷ []

abbrev outcome : BulkResult
outcome = record {
  created = ("1", new_mapping (request "n" "DB1")) ∷ ("4", new_mapping (request "o" "DB4")) ∷ [];
  errors = (1, node_duplicate) ∷ (2, address_duplicate) ∷ [];
}
