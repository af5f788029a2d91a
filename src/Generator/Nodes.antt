-- ===== src/Generator/Nodes.antt =====
-- src/config-generator/index.ts: the namespaces, object nodes and variable nodes of the configuration.
use opcua_light_server.Prelude.{
  ℕ, zero, suc, Bool, true, not, Option, none, some, List, [], ◌∷◌, ◌++◌, any, String, Text, codes,
  text_eq, str_eq, is_some, if◌then◌else◌, Dict, lookup, insert,
}
use opcua_light_server.Prelude.Json.{Json, null, str, obj, get}
use opcua_light_server.Db.Tables.{NamespaceRow, ObjectNodeRow, NodeRow}
use opcua_light_server.Db.ObjectNodes.{same_parent}
use opcua_light_server.Generator.{node_map, compute_object_node_path, SecurityConfigOutput}

-- A row of the mappings, joined with their connections.
pub record ConnectorMappingRow : Type 0 where
  pub node_id : String
  pub device_address : Text
  pub type : Text
  pub params : Text

-- `params.host` is any JSON value.
pub record ConnectorMappingConfig (N : Type 0) : Type 0 where
  pub connection_type : Text
  pub connection_host : Json N
  pub device_address : Text

pub record S7MappingConfig (N : Type 0) : Type 0 where
  pub connection_host : Json N
  pub plc_address : Text

pub record NodeConfig (N : Type 0) : Type 0 where
  pub name : Text
  pub node_id : Text
  pub data_type : Text
  pub parent_path : Text
  pub initial_value : Option (Json N)
  pub connector_mapping : Option (ConnectorMappingConfig N)
  pub s7_mapping : Option (S7MappingConfig N)

mutual
  pub data ObjectNodeConfig : Type 0 where
    object_node : Text → Text → ObjectNodeConfigs → ObjectNodeConfig

  pub data ObjectNodeConfigs : Type 0 where
    leaf : ObjectNodeConfigs
    child : ObjectNodeConfig → ObjectNodeConfigs → ObjectNodeConfigs

pub record NamespaceConfig (N : Type 0) : Type 0 where
  pub name : Text
  pub uri : Text
  pub object_nodes : ObjectNodeConfigs
  pub nodes : List (NodeConfig N)

-- What a query of the tables returns for a namespace.
pub record NamespaceRows : Type 0 where
  pub row : NamespaceRow
  pub object_nodes : List ObjectNodeRow
  pub nodes : List NodeRow
  pub mappings : List ConnectorMappingRow

pub record AddressSpaceConfig (N : Type 0) : Type 0 where
  pub version : ℕ
  pub generated_at : Text
  pub port : ℕ
  pub security : SecurityConfigOutput
  pub namespaces : List (NamespaceConfig N)

-- `params.host ?? ''`; `none` is the exception of a property of `null`.
abbrev pub host_of : {N : Type 0} → Json N → Option (Json N)
host_of null = none
host_of (obj fs) = elim (get (codes "host") fs) [
  | none ↦ some (str [])
  | some j ↦ elim j [ null ↦ some (str []) | value ↦ some value ]
]
host_of _ = some (str [])

-- Every value of a list computed, or an exception.
unfoldable pub all_of : {A B : Type 0} → (A → Option B) → List A → Option (List B)
all_of f [] = some []
all_of f (a ∷ items) =
    let rest = all_of f items in
    elim (f a) [ none ↦ none | some b ↦ elim rest [ none ↦ none | some bs ↦ some (b ∷ bs) ] ]

-- `ns=…;s=…`; `show` prints a number.
abbrev pub node_id_of : (ℕ → Text) → ℕ → Text → Text → Text
node_id_of show index parent_path name =
    codes "ns=" ++ (show index ++ (codes ";s=" ++ (parent_path ++ b'.' ∷ name)))

-- Whether a row is a root: it has no parent, or none among the rows.
abbrev pub is_root : Dict ObjectNodeRow → ObjectNodeRow → Bool
is_root m r = elim r.parent_object_node_id [ none ↦ true | some p ↦ not (is_some (lookup p m)) ]

abbrev pub is_child : String → ObjectNodeRow → Bool
is_child id r = same_parent r.parent_object_node_id (some id)

-- `parse` is `JSON.parse`, `none` where it throws; `fuel` bounds the rounds of each path and the levels
-- of the tree, and `none` also says that it does not suffice.
module _ {N : Type 0} (parse : Text → Option (Json N)) (show : ℕ → Text) (fuel : ℕ) where
  -- The object nodes among `todo` that pass the test, with their subtrees.
  unfoldable pub subtrees :
      ℕ
      → (ObjectNodeRow → Bool)
      → List ObjectNodeRow
      → List ObjectNodeRow
      → Text
      → Option ObjectNodeConfigs
  unfolding compute_object_node_path
  subtrees levels test [] rows name = some leaf
  subtrees zero test (r ∷ todo) rows name = if any test (r ∷ todo) then none else some leaf
  subtrees (suc levels) test (r ∷ todo) rows name =
      let rest : Option ObjectNodeConfigs = subtrees (suc levels) test todo rows name in
      let below : Option ObjectNodeConfigs = subtrees levels (is_child r.id) rows rows name in
      if test r
      then elim (compute_object_node_path fuel r.id rows name) [
        | none ↦ none
        | some path ↦ elim below [
          | none ↦ none
          | some children ↦ elim rest [
            | none ↦ none
            | some configs ↦ some (child (object_node r.name path children) configs)
          ]
        ]
      ]
      else rest

  unfoldable pub to_object_node_configs : List ObjectNodeRow → Text → Option ObjectNodeConfigs
  unfolding subtrees node_map
  to_object_node_configs rows name = subtrees fuel (is_root (node_map rows)) rows rows name

  unfoldable pub load_mapping : ConnectorMappingRow → Option (ConnectorMappingConfig N)
  load_mapping row = elim (parse row.params) [
    | none ↦ none
    | some params ↦ elim (host_of params) [
      | none ↦ none
      | some host ↦ some (record {
        connection_type = row.type;
        connection_host = host;
        device_address = row.device_address;
      })
    ]
  ]

  -- Of several rows for a node the last one stays.
  unfoldable pub load_mappings : List ConnectorMappingRow → Option (Dict (ConnectorMappingConfig N))
  unfolding load_mapping insert
  load_mappings rows = go [] rows
    where
      go :
          Dict (ConnectorMappingConfig N)
          → List ConnectorMappingRow
          → Option (Dict (ConnectorMappingConfig N))
      go m [] = some m
      go m (row ∷ rows) = elim (load_mapping row) [
        | none ↦ none
        | some c ↦ go (insert row.node_id c m) rows
      ]

  unfoldable pub s7_mapping_of : ConnectorMappingConfig N → Option (S7MappingConfig N)
  s7_mapping_of c =
      if text_eq c.connection_type (codes "s7")
      then some (record { connection_host = c.connection_host; plc_address = c.device_address })
      else none

  -- `JSON.parse` of the initial value, where there is one.
  abbrev pub initial_value_of : NodeRow → Option (Option (Json N))
  initial_value_of node = elim node.initial_value [
    | none ↦ some none
    | some text ↦ elim (parse text) [ none ↦ none | some j ↦ some (some j) ]
  ]

  abbrev pub parent_path_of : NodeRow → List ObjectNodeRow → Text → Option Text
  parent_path_of node rows name = elim node.object_node_id [
    | none ↦ some name
    | some id ↦ if str_eq id "" then some name else compute_object_node_path fuel id rows name
  ]

  unfoldable pub build_node :
      ℕ
      → Text
      → List ObjectNodeRow
      → Dict (ConnectorMappingConfig N)
      → NodeRow
      → Option (NodeConfig N)
  unfolding compute_object_node_path lookup s7_mapping_of
  build_node index name rows mappings node = elim (parent_path_of node rows name) [
    | none ↦ none
    | some parent_path ↦ elim (initial_value_of node) [
      | none ↦ none
      | some initial_value ↦
          let mapping : Option (ConnectorMappingConfig N) = lookup node.id mappings in
          some (record {
            name = node.name;
            node_id = node_id_of show index parent_path node.name;
            data_type = node.data_type;
            parent_path = parent_path;
            initial_value = initial_value;
            connector_mapping = mapping;
            s7_mapping = elim mapping [ none ↦ none | some c ↦ s7_mapping_of c ];
          })
    ]
  ]

  unfoldable pub build_nodes : ℕ → NamespaceRows → Option (List (NodeConfig N))
  unfolding load_mappings build_node all_of
  build_nodes index ns = elim (load_mappings ns.mappings) [
    | none ↦ none
    | some mappings ↦ all_of (build_node index ns.row.name ns.object_nodes mappings) ns.nodes
  ]

  unfoldable pub build_namespace : ℕ → NamespaceRows → Option (NamespaceConfig N)
  unfolding build_nodes to_object_node_configs
  build_namespace index ns = elim (build_nodes index ns) [
    | none ↦ none
    | some nodes ↦ elim (to_object_node_configs ns.object_nodes ns.row.name) [
      | none ↦ none
      | some object_nodes ↦ some (record {
        name = ns.row.name;
        uri = ns.row.uri;
        object_nodes = object_nodes;
        nodes = nodes;
      })
    ]
  ]

  -- The indices start at 2.
  unfoldable pub build_namespaces : ℕ → List NamespaceRows → Option (List (NamespaceConfig N))
  unfolding build_namespace
  build_namespaces index [] = some []
  build_namespaces index (ns ∷ rows) =
      let rest = build_namespaces (suc index) rows in
      elim (build_namespace index ns) [
        | none ↦ none
        | some config ↦ elim rest [ none ↦ none | some configs ↦ some (config ∷ configs) ]
      ]

  unfoldable pub generate :
      SecurityConfigOutput → Text → ℕ → List NamespaceRows → Option (AddressSpaceConfig N)
  unfolding build_namespaces
  generate security generated_at port rows = elim (build_namespaces 2 rows) [
    | none ↦ none
    | some namespaces ↦ some (record {
      version = 1;
      generated_at = generated_at;
      port = port;
      security = security;
      namespaces = namespaces;
    })
  ]
