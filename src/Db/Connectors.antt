-- ===== src/Db/Connectors.antt =====
-- src/db/repositories/connector-repository.ts: connections and mappings, while the database can be reached,
-- in the tables of schema version 5. A table is a dictionary by its primary key.
pub mod Mappings
pub mod Consistency
pub mod Bulk
pub mod Tests
use opcua_light_server.Prelude.{
  ℕ, suc, Bool, true, false, ◌&&◌, ◌||◌, not, Option, none, some, List, [], ◌∷◌, any, String, Text,
  text_eq, str_eq, is_some, if◌then◌else◌, Dict, lookup, has, insert, delete,
}

-- `params` is the JSON text.
pub record ConnectionRow : Type 0 where
  pub type : Text
  pub name : Text
  pub params : Text
  pub polling_interval_ms : ℕ
  pub reconnect_interval_ms : ℕ
  pub enabled : ℕ

pub record MappingRow : Type 0 where
  pub connection_id : String
  pub node_id : Option String
  pub device_address : Text
  pub description : Option Text

-- `nodes` are the ids of the table of that name.
pub record ConnectorTables : Type 0 where
  pub nodes : List String
  pub connections : Dict ConnectionRow
  pub mappings : Dict MappingRow

pub record CreateConnectionRequest : Type 0 where
  pub type : Text
  pub name : Text
  pub params : Text
  pub polling_interval_ms : Option ℕ
  pub reconnect_interval_ms : Option ℕ
  pub enabled : Option Bool

pub record UpdateConnectionRequest : Type 0 where
  pub name : Option Text
  pub params : Option Text
  pub polling_interval_ms : Option ℕ
  pub reconnect_interval_ms : Option ℕ
  pub enabled : Option Bool

pub record CreateMappingRequest : Type 0 where
  pub connection_id : String
  pub node_id : Option String
  pub device_address : Text
  pub description : Option Text

pub record UpdateMappingRequest : Type 0 where
  pub device_address : Option Text
  pub node_id : Option String
  pub description : Option Text

pub data MappingError : Type 0 where
  connection_not_found mapping_not_found node_not_found node_duplicate address_duplicate :
      MappingError

-- `raised` is an exception of SQLite.
pub data MappingResult : Type 0 where
  mapped : String → MappingRow → MappingResult
  removed : MappingResult
  rejected : MappingError → MappingResult
  raised : MappingResult

abbrev pub or_else {ℓ} : {A : Type ℓ} → Option A → A → A
or_else none b = b
or_else (some a) b = a

abbrev pub enabled_flag : Bool → ℕ
enabled_flag true = 1
enabled_flag false = 0

abbrev pub new_connection : CreateConnectionRequest → ConnectionRow
new_connection request = record {
  type = request.type;
  name = request.name;
  params = request.params;
  polling_interval_ms = or_else request.polling_interval_ms 1000;
  reconnect_interval_ms = or_else request.reconnect_interval_ms 5000;
  enabled = elim request.enabled [ none ↦ 1 | some b ↦ enabled_flag b ];
}

-- `id` is the new UUID; `none` is the exception of a key that is there already.
unfoldable pub create_connection :
    String → CreateConnectionRequest → ConnectorTables → Option ConnectorTables
create_connection id request t =
    if has id t.connections
    then none
    else some (record t { connections = insert id (new_connection request) t.connections })

abbrev pub updated_connection : UpdateConnectionRequest → ConnectionRow → ConnectionRow
updated_connection request row = record row {
  name = or_else request.name row.name;
  params = or_else request.params row.params;
  polling_interval_ms = or_else request.polling_interval_ms row.polling_interval_ms;
  reconnect_interval_ms = or_else request.reconnect_interval_ms row.reconnect_interval_ms;
  enabled = elim request.enabled [ none ↦ row.enabled | some b ↦ enabled_flag b ];
}

-- `none` where the connection is not found.
unfoldable pub update_connection :
    String → UpdateConnectionRequest → ConnectorTables → Option ConnectorTables
unfolding lookup insert
update_connection id request t = elim (lookup id t.connections) [
  | none ↦ none
  | some row ↦
      some (record t { connections = insert id (updated_connection request row) t.connections })
]

-- `ON DELETE CASCADE`
unfoldable pub drop_mappings : String → Dict MappingRow → Dict MappingRow
drop_mappings connection_id [] = []
drop_mappings connection_id ((i, r) ∷ d) =
    if str_eq r.connection_id connection_id
    then drop_mappings connection_id d
    else (i, r) ∷ drop_mappings connection_id d

unfoldable pub delete_connection : String → ConnectorTables → Option ConnectorTables
unfolding drop_mappings lookup delete
delete_connection id t =
    if has id t.connections
    then some
        (record t { connections = delete id t.connections; mappings = drop_mappings id t.mappings })
    else none

abbrev pub node_exists : String → ConnectorTables → Bool
node_exists node_id t = any (λ n. str_eq n node_id) t.nodes

-- The first row that passes a test.
unfoldable pub find_mapping : (MappingRow → Bool) → Dict MappingRow → Option (String × MappingRow)
find_mapping test [] = none
find_mapping test ((i, r) ∷ d) = if test r then some (i, r) else find_mapping test d

abbrev pub is_node : String → MappingRow → Bool
is_node node_id r = elim r.node_id [ none ↦ false | some n ↦ str_eq n node_id ]

abbrev pub is_address : String → Text → MappingRow → Bool
is_address connection_id device_address r =
    str_eq r.connection_id connection_id && text_eq r.device_address device_address

-- A mapping of another id passes the test.
abbrev pub is_taken : String → (MappingRow → Bool) → Dict MappingRow → Bool
is_taken id test d = elim (find_mapping test d) [ none ↦ false | some (j, r) ↦ not (str_eq j id) ]

abbrev pub refers : Option String → ConnectorTables → Bool
refers node_id t = elim node_id [ none ↦ true | some n ↦ node_exists n t ]

-- What the database itself demands of a row that is inserted or replaced.
abbrev pub is_allowed : String → MappingRow → ConnectorTables → Bool
is_allowed id row t =
    has row.connection_id t.connections
    && refers row.node_id t
    && not (is_taken id (is_address row.connection_id row.device_address) t.mappings)

unfoldable pub put_mapping : String → MappingRow → ConnectorTables → ConnectorTables × MappingResult
unfolding find_mapping lookup insert
put_mapping id row t =
    if is_allowed id row t
    then (record t { mappings = insert id row t.mappings }, mapped id row)
    else (t, raised)

-- `if (request.nodeId)`: an id that is given and not empty.
abbrev pub given : Option String → Option String
given none = none
given (some n) = if str_eq n "" then none else some n

-- The check of the node: it exists and no other mapping has it.
abbrev pub node_error : String → Option String → ConnectorTables → Option MappingError
node_error id none t = none
node_error id (some n) t =
    if node_exists n t
    then if is_taken id (is_node n) t.mappings then some node_duplicate else none
    else some node_not_found

abbrev pub new_mapping : CreateMappingRequest → MappingRow
new_mapping request = record {
  connection_id = request.connection_id;
  node_id = request.node_id;
  device_address = request.device_address;
  description = request.description;
}

-- `id` is the new UUID, which no row has.
unfoldable pub create_mapping :
    String → CreateMappingRequest → ConnectorTables → ConnectorTables × MappingResult
unfolding put_mapping find_mapping lookup
create_mapping id request t =
    if has request.connection_id t.connections
    then elim (node_error id (given request.node_id) t) [
      | some e ↦ (t, rejected e)
      | none ↦
          if is_some
            (find_mapping (is_address request.connection_id request.device_address) t.mappings)
          then (t, rejected address_duplicate)
          else if has id t.mappings
          then (t, raised)
          else put_mapping id (new_mapping request) t
    ]
    else (t, rejected connection_not_found)

-- The new node where it is given and differs from the old one.
abbrev pub new_node : Option String → Option String → Option String
new_node none old = none
new_node (some n) none = some n
new_node (some n) (some o) = if str_eq n o then none else some n

abbrev pub is_changed : Option Text → Text → Bool
is_changed none old = false
is_changed (some a) old = not (text_eq a []) && not (text_eq a old)

unfoldable pub updated_mapping : UpdateMappingRequest → MappingRow → MappingRow
updated_mapping request row = record row {
  device_address = or_else request.device_address row.device_address;
  node_id = elim request.node_id [ none ↦ row.node_id | some n ↦ some n ];
  description = elim request.description [ none ↦ row.description | some d ↦ some d ];
}

unfoldable pub update_mapping :
    String → UpdateMappingRequest → ConnectorTables → ConnectorTables × MappingResult
unfolding put_mapping find_mapping lookup updated_mapping
update_mapping id request t = elim (lookup id t.mappings) [
  | none ↦ (t, rejected mapping_not_found)
  | some row ↦ elim (node_error id (new_node (given request.node_id) row.node_id) t) [
    | some e ↦ (t, rejected e)
    | none ↦
        if is_changed request.device_address row.device_address
          && is_taken id
              (is_address row.connection_id (or_else request.device_address row.device_address))
              t.mappings
        then (t, rejected address_duplicate)
        else put_mapping id (updated_mapping request row) t
  ]
]

unfoldable pub delete_mapping : String → ConnectorTables → ConnectorTables × MappingResult
unfolding lookup delete
delete_mapping id t =
    if has id t.mappings
    then (record t { mappings = delete id t.mappings }, removed)
    else (t, rejected mapping_not_found)

pub record BulkResult : Type 0 where
  pub created : List (String × MappingRow)
  pub errors : List (ℕ × MappingError)

-- From index `i`; the requests come with their new ids. An exception ends the loop, with what is created.
unfoldable pub create_mappings_bulk :
    ℕ → List (String × CreateMappingRequest) → ConnectorTables → ConnectorTables × Option BulkResult
unfolding create_mapping
create_mappings_bulk i [] t = (t, some (record { created = []; errors = [] }))
create_mappings_bulk i ((id, request) ∷ requests) t =
    let made : ConnectorTables × MappingResult = create_mapping id request t in
    let rest : ConnectorTables × Option BulkResult = create_mappings_bulk (suc i) requests made.0 in
    elim made.1 [
      | mapped j row ↦ (
        rest.0,
        elim rest.1 [ none ↦ none | some b ↦ some (record b { created = (j, row) ∷ b.created }) ],
      )
      | rejected e ↦ (
        rest.0,
        elim rest.1 [ none ↦ none | some b ↦ some (record b { errors = (i, e) ∷ b.errors }) ],
      )
      | removed ↦ (made.0, none)
      | raised ↦ (made.0, none)
    ]

pub data ConnectorCall : Type 0 where
  creates_connection : String → CreateConnectionRequest → ConnectorCall
  updates_connection : String → UpdateConnectionRequest → ConnectorCall
  deletes_connection : String → ConnectorCall
  creates : String → CreateMappingRequest → ConnectorCall
  updates : String → UpdateMappingRequest → ConnectorCall
  deletes : String → ConnectorCall

unfoldable pub step : ConnectorCall → ConnectorTables → ConnectorTables
unfolding create_connection update_connection delete_connection create_mapping update_mapping
    delete_mapping
step (creates_connection id request) t = or_else (create_connection id request t) t
step (updates_connection id request) t = or_else (update_connection id request t) t
step (deletes_connection id) t = or_else (delete_connection id t) t
step (creates id request) t = (create_mapping id request t).0
step (updates id request) t = (update_mapping id request t).0
step (deletes id) t = (delete_mapping id t).0

unfoldable pub run : List ConnectorCall → ConnectorTables → ConnectorTables
unfolding step
run [] t = t
run (call ∷ calls) t = run calls (step call t)
