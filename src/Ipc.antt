-- ===== src/Ipc.antt =====
-- src/connectors/core/ipc-bridge.ts: value updates on their way to the runtime's stdin.
-- The configuration and the rows of the database are what the generator and the database answer
-- during one call; both are taken not to fail. Instants are numbers, as in the connectors.
pub mod Resolution
pub mod Tests
use opcua_light_server.Prelude.{
  ℕ, Bool, Option, none, some, List, [], ◌∷◌, ◌++◌, map, if◌then◌else◌, is_some, is_empty, length,
  has, String, Dict, lookup, insert,
}
use opcua_light_server.Connector.Types.{Quality, ValueUpdate}
use opcua_light_server.Process.Manager.{
  Manager, Env, ManagerError, returns, throws, is_running, get_status, write_to_stdin,
}

pub record ConfigNode : Type 0 where
  pub name : String
  pub node_id : String

pub record ConfigNamespace : Type 0 where
  pub name : String
  pub nodes : List ConfigNode

-- An update as it is written: a node id of `none` is `undefined`, which JSON leaves out.
pub record ResolvedUpdate (V : Type 0) : Type 0 where
  pub node_id : Option String
  pub value : Option V
  pub quality : Quality
  pub timestamp : ℕ

pub data BridgeLog : Type 0 where
  skipped unresolved sent map_built : ℕ → BridgeLog
  unknown_node : String → BridgeLog
  write_failed : ManagerError → BridgeLog

-- `messages` are those that the runtime's stdin received, oldest first.
pub record IpcBridge (V : Type 0) : Type 0 where
  pub uuid_to_opcua_id : Option (Dict String)
  pub messages : List (List (ResolvedUpdate V))
  pub logged : List BridgeLog

-- `row` is the query for the id of a node by its name and its namespace's.
module _ (row : String → String → Option String) where
  map_nodes : String → List ConfigNode → Dict String → Dict String
  map_nodes namespace [] d = d
  map_nodes namespace (node ∷ nodes) d =
      map_nodes namespace nodes
        (elim (row node.name namespace) [ none ↦ d | some id ↦ insert id node.node_id d ])

  map_namespaces : List ConfigNamespace → Dict String → Dict String
  unfolding map_nodes
  map_namespaces [] d = d
  map_namespaces (ns ∷ rest) d = map_namespaces rest (map_nodes ns.name ns.nodes d)

  pub build_node_id_map : List ConfigNamespace → Dict String
  unfolding map_namespaces
  build_node_id_map namespaces = map_namespaces namespaces []

-- The lazily built map, and what building it logs.
cached_map : Dict String → Option (Dict String) → Dict String × List BridgeLog
cached_map built none = (built, map_built (length built) ∷ [])
cached_map built (some d) = (d, [])

module _ {V : Type 0} where
  -- The `filter`: the map that it leaves, the nodes that it logs, and the updates that it keeps.
  -- A rebuilt map is `built`.
  pub filter_known :
      Dict String
      → Dict String
      → List (ValueUpdate V)
      → Dict String × List BridgeLog × List (ValueUpdate V)
  filter_known built d [] = (d, [], [])
  filter_known built d (u ∷ us) =
      let (d₁, logs₁, us₁) = filter_known built d us in
      let (d₂, logs₂, us₂) = filter_known built built us in
      if has u.node_id d
      then (d₁, logs₁, u ∷ us₁)
      else if has u.node_id built
      then (d₂, unknown_node u.node_id ∷ logs₂, u ∷ us₂)
      else (d₂, unknown_node u.node_id ∷ logs₂, us₂)

  pub resolve : Dict String → ValueUpdate V → ResolvedUpdate V
  resolve d u = record {
    node_id = lookup u.node_id d;
    value = u.value;
    quality = u.quality;
    timestamp = u.timestamp;
  }

  -- `writeToStdin` and its `catch`: a write that returns `false` has been taken nevertheless.
  pub send : Option Bool → Manager → List (ResolvedUpdate V) → IpcBridge V → IpcBridge V
  send accepts m updates s = elim (write_to_stdin accepts m) [
    | throws e ↦ record s { logged = s.logged ++ write_failed e ∷ [] }
    | returns ok ↦ record s {
      messages = if is_some accepts then s.messages ++ updates ∷ [] else s.messages;
      logged = s.logged ++ sent (length updates) ∷ [];
    }
  ]

  pub handle_value_updates :
      Env → Option Bool → Manager → Dict String → List (ValueUpdate V) → IpcBridge V → IpcBridge V
  unfolding filter_known cached_map send resolve
  handle_value_updates env accepts m built updates s =
      let (d, logs) = cached_map built s.uuid_to_opcua_id in
      let (d', logs', kept) = filter_known built d updates in
      let s' = record s { uuid_to_opcua_id = some d'; logged = s.logged ++ logs ++ logs' } in
      if is_running (get_status env m).state
      then (if is_empty kept
          then record s' { logged = s'.logged ++ unresolved (length updates) ∷ [] }
          else send accepts m (map (resolve d') kept) s')
      else record s { logged = s.logged ++ skipped (length updates) ∷ [] }

  pub invalidate_map : IpcBridge V → IpcBridge V
  invalidate_map s = record s { uuid_to_opcua_id = none }
