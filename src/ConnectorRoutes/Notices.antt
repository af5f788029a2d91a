-- ===== src/ConnectorRoutes/Notices.antt =====
-- src/api/routes/connectors.ts: the connectors learn of every mapping that is created and deleted.
use opcua_light_server.Prelude.{
  ◌≡◌, Bool, true, List, [], ◌∷◌, String, Text, Dict, lookup, has, insert, delete, if◌then◌else◌,
  some,
}
use opcua_light_server.Db.Connectors.{
  ConnectionRow, MappingRow, ConnectorTables, MappingError, MappingResult, mapped, removed,
  rejected, raised, drop_mappings,
}
use opcua_light_server.ConnectorRoutes.{
  Notice, connection_added, connection_updated, connection_removed, mapping_added, mapping_removed,
  Answer,
}

-- The mappings that the connectors have after a notice, from `d`. `tracks` says of which connections
-- the connectors have an object; for another one `addMapping` throws, and the route goes on.
abbrev pub heard : (String → Bool) → Notice → Dict MappingRow → Dict MappingRow
heard tracks (mapping_added id row) d = if tracks row.connection_id then insert id row d else d
heard tracks (mapping_removed id) d = delete id d
heard tracks (connection_removed id) d = drop_mappings id d
heard tracks (connection_added id row) d = d
heard tracks (connection_updated id row) d = d

abbrev pub all_heard : (String → Bool) → List Notice → Dict MappingRow → Dict MappingRow
all_heard tracks [] d = d
all_heard tracks (n ∷ notices) d = all_heard tracks notices (heard tracks n d)

-- Each connection of the table has a type with a connector, which has an object of the connection.
abbrev pub AreServed : (Text → Bool) → (String → Bool) → ConnectorTables → Type 0
AreServed knows tracks t =
    (id : String) (row : ConnectionRow)
    → lookup id t.connections ≡ some row
    → (knows row.type ≡ true) × (tracks id ≡ true)

-- The connectors have the mappings of the table that a route leaves.
abbrev pub Tells : (String → Bool) → ConnectorTables → ConnectorTables × Answer → Type 0
Tells tracks t s = all_heard tracks s.1.notices t.mappings ≡ s.0.mappings

-- What a creation does, where it is not refused.
abbrev Creates : ConnectorTables → ConnectorTables × MappingResult → Type 0
Creates t s =
    ((id : String) (row : MappingRow)
      → s.1 ≡ mapped id row
      → (s.0.mappings ≡ insert id row t.mappings)
        × (has row.connection_id s.0.connections ≡ true)
        × (s.0.connections ≡ t.connections))
    × ((e : MappingError) → s.1 ≡ rejected e → s.0.mappings ≡ t.mappings)
    × (s.1 ≡ removed → s.0.mappings ≡ t.mappings)
    × (s.1 ≡ raised → s.0.mappings ≡ t.mappings)
