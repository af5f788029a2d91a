-- ===== src/Db/Nodes.antt =====
-- src/db/repositories/node-repository.ts: the variable nodes, while the database can be reached. A JSON
-- value is a `J`, and `stringify` is `JSON.stringify`.
use opcua_light_server.Prelude.{
  Bool, true, false, ◌&&◌, ◌||◌, not, Option, none, some, List, [], ◌∷◌, ◌++◌, any, String, Text,
  codes, text_eq, str_eq, is_empty, is_some, trim, if◌then◌else◌,
}
use opcua_light_server.Db.Tables.{NodeRow, Tables, find_namespace, find_object_node}

pub record CreateNodeRequest (J : Type 0) : Type 0 where
  pub name : Text
  pub namespace_id : String
  pub object_node_id : Option String
  pub data_type : Text
  pub initial_value : Option J
  pub description : Option Text

-- `some none` sets an object node to null.
pub record UpdateNodeRequest (J : Type 0) : Type 0 where
  pub name : Option Text
  pub object_node_id : Option (Option String)
  pub data_type : Option Text
  pub initial_value : Option J
  pub description : Option Text

pub data InvalidField : Type 0 where
  name_required namespace_required data_type_required data_type_unsupported : InvalidField

-- `raised` is an exception of SQLite.
pub data NodeResult : Type 0 where
  stored : NodeRow → NodeResult
  removed : NodeResult
  invalid : List InvalidField → NodeResult
  duplicate not_found raised : NodeResult

abbrev pub supported_data_types : List Text
supported_data_types =
    codes "Boolean"
    ∷ codes "Int16"
    ∷ codes "Int32"
    ∷ codes "Int64"
    ∷ codes "UInt16"
    ∷ codes "UInt32"
    ∷ codes "UInt64"
    ∷ codes "Float"
    ∷ codes "Double"
    ∷ codes "String"
    ∷ codes "DateTime"
    ∷ codes "ByteString"
    ∷ []

abbrev pub is_supported : Text → Bool
is_supported t = any (λ s. text_eq s t) supported_data_types

abbrev pub when : Bool → InvalidField → List InvalidField
when true e = e ∷ []
when false e = []

unfoldable pub find_node : String → List NodeRow → Option NodeRow
find_node id [] = none
find_node id (r ∷ rows) = if str_eq r.id id then some r else find_node id rows

-- `UNIQUE(namespace_id, name)`
abbrev pub is_named : Text → String → NodeRow → Bool
is_named name namespace_id r = text_eq r.name name && str_eq r.namespace_id namespace_id

-- The rows but the one with this id.
unfoldable pub drop_node : String → List NodeRow → List NodeRow
drop_node id [] = []
drop_node id (r ∷ rows) = if str_eq r.id id then drop_node id rows else r ∷ drop_node id rows

-- What the keys of the schema demand of a row beside the others.
abbrev pub fits : NodeRow → List NodeRow → Tables → Bool
fits row others t =
    is_some (find_namespace row.namespace_id t.namespaces)
    && (elim row.object_node_id [
      | none ↦ true
      | some p ↦ is_some (find_object_node p t.object_nodes)
    ])
    && not (any (λ r. str_eq r.id row.id || is_named row.name row.namespace_id r) others)

unfoldable pub insert_node : NodeRow → Tables → Tables × NodeResult
insert_node row t =
    if fits row t.nodes t then (record t { nodes = row ∷ t.nodes }, stored row) else (t, raised)

-- `UPDATE nodes … WHERE id = ?`
unfoldable pub replace_node : NodeRow → List NodeRow → List NodeRow
replace_node row [] = []
replace_node row (r ∷ rows) =
    if str_eq r.id row.id then row ∷ replace_node row rows else r ∷ replace_node row rows

module _ {J : Type 0} (stringify : J → Text) where
  unfoldable pub validate_create : CreateNodeRequest J → List InvalidField
  validate_create request =
      when (is_empty (trim request.name)) name_required
      ++ (when (is_empty (trim (codes request.namespace_id))) namespace_required
          ++ (if is_empty request.data_type
              then data_type_required ∷ []
              else when (not (is_supported request.data_type)) data_type_unsupported))

  abbrev pub new_node : String → CreateNodeRequest J → NodeRow
  new_node id request = record {
    id = id;
    namespace_id = request.namespace_id;
    object_node_id = request.object_node_id;
    name = request.name;
    data_type = request.data_type;
    initial_value = elim request.initial_value [ none ↦ none | some j ↦ some (stringify j) ];
    description = request.description;
  }

  -- `id` is the new UUID.
  unfoldable pub create : String → CreateNodeRequest J → Tables → Tables × NodeResult
  unfolding validate_create insert_node
  create id request t =
      if is_empty (validate_create request)
      then if any (is_named request.name request.namespace_id) t.nodes
        then (t, duplicate)
        else insert_node (new_node id request) t
      else (t, invalid (validate_create request))

  unfoldable pub validate_update : UpdateNodeRequest J → List InvalidField
  validate_update request =
      (elim request.name [ none ↦ [] | some n ↦ when (is_empty (trim n)) name_required ])
      ++ (elim request.data_type [
        | none ↦ []
        | some d ↦ when (not (is_supported d)) data_type_unsupported
      ])

  abbrev pub updated_node : UpdateNodeRequest J → NodeRow → NodeRow
  updated_node request row = record row {
    name = elim request.name [ none ↦ row.name | some n ↦ n ];
    object_node_id = elim request.object_node_id [ none ↦ row.object_node_id | some p ↦ p ];
    data_type = elim request.data_type [ none ↦ row.data_type | some d ↦ d ];
    initial_value = elim request.initial_value [
      | none ↦ row.initial_value
      | some j ↦ some (stringify j)
    ];
    description = elim request.description [ none ↦ row.description | some d ↦ some d ];
  }

  abbrev pub is_renamed : Option Text → Text → Bool
  is_renamed none old = false
  is_renamed (some n) old = not (is_empty n) && not (text_eq n old)

  unfoldable pub update : String → UpdateNodeRequest J → Tables → Tables × NodeResult
  unfolding validate_update find_node replace_node drop_node
  update id request t = elim (find_node id t.nodes) [
    | none ↦ (t, not_found)
    | some row ↦
        let new : NodeRow = updated_node request row in
        if is_empty (validate_update request)
        then if is_renamed request.name row.name && any (is_named new.name row.namespace_id) t.nodes
          then (t, duplicate)
          else if fits new (drop_node id t.nodes) t
          then (record t { nodes = replace_node new t.nodes }, stored new)
          else (t, raised)
        else (t, invalid (validate_update request))
  ]

unfoldable pub delete : String → Tables → Tables × NodeResult
unfolding find_node drop_node
delete id t =
    if is_some (find_node id t.nodes)
    then (record t { nodes = drop_node id t.nodes }, removed)
    else (t, not_found)
