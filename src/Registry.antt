-- ===== src/Registry.antt =====
-- src/connectors/core/connector-registry.ts: all connectors together, and what is broadcast of them.
-- `S` is the state of a connector, `V` its values and `M` its metadata; `stringify` is
-- `JSON.stringify` of a list of statuses.
pub mod Broadcasts
pub mod Tests
use opcua_light_server.Prelude.{
  Bool, true, false, ◌&&◌, Option, none, some, List, [], ◌∷◌, ◌++◌, if◌then◌else◌, any, is_some,
  String, Text, codes, text_eq, Dict, lookup, insert, values,
}
use opcua_light_server.Connector.Types.{
  ConnectionStatus, CurrentValue, ValueUpdate, ConnectionState, connected, disconnected, error,
}

-- The interface `Connector`, as far as the registry uses it.
pub record ConnectorApi (S V : Type 0) : Type 0 where
  pub get_type : S → String
  pub on_value_update : S → S
  pub start : S → S
  pub stop : S → S
  pub get_status : S → List ConnectionStatus
  pub get_current_values : S → List (CurrentValue V)

pub data Broadcast (V : Type 0) : Type 0 where
  connector_status : List ConnectionStatus → Broadcast V
  connector_values : List (CurrentValue V) → Broadcast V

-- `broadcasts` is what the hub is given and `forwarded` what the callback is, oldest first.
pub record ConnectorRegistry (S V M : Type 0) : Type 0 where
  pub connectors : Dict S
  pub metadata : Dict M
  pub value_update_callback : Bool
  pub sse_hub : Bool
  pub status_poll_interval : Bool
  pub last_status_snapshot : Text
  pub broadcasts : List (Broadcast V)
  pub forwarded : List (List (ValueUpdate V))

abbrev pub is_connected : ConnectionState → Bool
is_connected connected = true
is_connected disconnected = false
is_connected error = false

module _ {S V M : Type 0} where
  pub init : ConnectorRegistry S V M
  init = record {
    connectors = [];
    metadata = [];
    value_update_callback = false;
    sse_hub = false;
    status_poll_interval = false;
    last_status_snapshot = codes "[]";
    broadcasts = [];
    forwarded = [];
  }

  pub set_sse_hub : ConnectorRegistry S V M → ConnectorRegistry S V M
  set_sse_hub r = record r { sse_hub = true }

  pub on_value_update : ConnectorRegistry S V M → ConnectorRegistry S V M
  on_value_update r = record r { value_update_callback = true }

  pub get_connector : String → ConnectorRegistry S V M → Option S
  get_connector type r = lookup type r.connectors

  pub get_protocol_metadata : String → ConnectorRegistry S V M → Option M
  get_protocol_metadata type r = lookup type r.metadata

  pub get_protocols_metadata : ConnectorRegistry S V M → List M
  get_protocols_metadata r = values r.metadata

  abbrev emit : Broadcast V → ConnectorRegistry S V M → ConnectorRegistry S V M
  emit b r = record r { broadcasts = r.broadcasts ++ b ∷ [] }

  pub stop_status_polling : ConnectorRegistry S V M → ConnectorRegistry S V M
  stop_status_polling r =
      if r.status_poll_interval then record r { status_poll_interval = false } else r

module _ {S : Type 0} where
  -- The loops of `startAll` and `stopAll`.
  pub each : (S → S) → Dict S → Dict S
  each f [] = []
  each f ((type, c) ∷ rest) = (type, f c) ∷ each f rest

  -- The loops of the aggregations.
  pub gather : {B : Type 0} → (S → List B) → Dict S → List B
  gather f [] = []
  gather f ((type, c) ∷ rest) = f c ++ gather f rest

module _ {S V M : Type 0} (api : ConnectorApi S V) where
  pub get_aggregated_status : ConnectorRegistry S V M → List ConnectionStatus
  unfolding gather
  get_aggregated_status r = gather api.get_status r.connectors

  pub get_aggregated_values : ConnectorRegistry S V M → List (CurrentValue V)
  unfolding gather
  get_aggregated_values r = gather api.get_current_values r.connectors

  pub register : S → Option M → ConnectorRegistry S V M → ConnectorRegistry S V M
  register c m r = record r {
    connectors = insert (api.get_type c) (api.on_value_update c) r.connectors;
    metadata = elim m [ none ↦ r.metadata | some d ↦ insert (api.get_type c) d r.metadata ];
  }

  -- Only while a connection is up.
  pub broadcast_values : ConnectorRegistry S V M → ConnectorRegistry S V M
  unfolding get_aggregated_status get_aggregated_values
  broadcast_values r =
      if r.sse_hub && any (λ s. is_connected s.state) (get_aggregated_status r)
      then emit (connector_values (get_aggregated_values r)) r
      else r

  -- The callback that `register` gives to a connector.
  pub handle_updates : List (ValueUpdate V) → ConnectorRegistry S V M → ConnectorRegistry S V M
  unfolding broadcast_values
  handle_updates updates r =
      broadcast_values (
        if r.value_update_callback then record r { forwarded = r.forwarded ++ updates ∷ [] } else r)

  module _ (stringify : List ConnectionStatus → Text) where
    pub start_status_polling : ConnectorRegistry S V M → ConnectorRegistry S V M
    unfolding get_aggregated_status
    start_status_polling r = if r.status_poll_interval then r else record r {
      last_status_snapshot = stringify (get_aggregated_status r);
      status_poll_interval = true;
    }

    pub check_and_broadcast_status : ConnectorRegistry S V M → ConnectorRegistry S V M
    unfolding get_aggregated_status
    check_and_broadcast_status r =
        let status = get_aggregated_status r in
        let seen = record r { last_status_snapshot = stringify status } in
        if text_eq (stringify status) r.last_status_snapshot
        then r
        else if r.sse_hub
        then emit (connector_status status) seen
        else seen

    pub broadcast_status : ConnectorRegistry S V M → ConnectorRegistry S V M
    unfolding get_aggregated_status
    broadcast_status r =
        let status = get_aggregated_status r in
        if r.sse_hub
        then emit (connector_status status) (record r { last_status_snapshot = stringify status })
        else r

    pub start_all : ConnectorRegistry S V M → ConnectorRegistry S V M
    unfolding start_status_polling each
    start_all r = start_status_polling (record r { connectors = each api.start r.connectors })

    pub stop_all : ConnectorRegistry S V M → ConnectorRegistry S V M
    unfolding broadcast_status stop_status_polling each
    stop_all r =
        let r₁ = stop_status_polling r in
        broadcast_status (record r₁ { connectors = each api.stop r₁.connectors })
