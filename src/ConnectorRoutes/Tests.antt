-- ===== src/ConnectorRoutes/Tests.antt =====
-- src/api/routes/connectors.ts: the creation of a mapping, and the theorem at it.
use opcua_light_server.Prelude.{
  String, str_eq, text_eq, true, Bool, none, some, [], ◌∷◌, Text, codes,
}
use opcua_light_server.Db.Connectors.{ConnectionRow, ConnectorTables}
use opcua_light_server.ConnectorRoutes.{PostMapping}

abbrev plc : ConnectionRow
plc = record {
  type = codes "s7";
  name = codes "plc";
  params = codes "{}";
  polling_interval_ms = 1000;
  reconnect_interval_ms = 5000;
  enabled = 1;
}

abbrev tables : ConnectorTables
tables = record { nodes = "n" ∷ []; connections = ("c", plc) ∷ []; mappings = [] }

abbrev body : PostMapping
body = record {
  connection_id = some "c";
  node_id = some "n";
  device_address = some (codes "DB1");
  description = none;
}

abbrev knows : Text → Bool
knows type = text_eq type (codes "s7")

abbrev tracks : String → Bool
tracks id = str_eq "c" id

abbrev is_valid : Text → Text → Bool
is_valid type params = true
