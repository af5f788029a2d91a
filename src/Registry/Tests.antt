-- ===== src/Registry/Tests.antt =====
-- src/connectors/core/connector-registry.ts on one connector whose state is its connection's.
use opcua_light_server.Prelude.{
  ℕ, ◌≡◌, refl, true, none, List, [], ◌∷◌, ◌++◌, map, Text, codes, Dict,
}
use opcua_light_server.Connector.Types.{
  ConnectionState, connected, disconnected, error, ConnectionStatus,
}
use opcua_light_server.Registry.{ConnectorApi, ConnectorRegistry, connector_status, gather, init}
use opcua_light_server.Registry.Broadcasts.{polls, changes, polls-broadcasts}

abbrev switch : ConnectorApi ConnectionState ℕ
switch = record {
  get_type = λ s. "switch";
  on_value_update = λ s. s;
  start = λ s. connected;
  stop = λ s. disconnected;
  get_status = λ s.
      record { connection_id = "c"; state = s; last_poll_at = none; error_message = none } ∷ [];
  get_current_values = λ s. [];
}

abbrev state_text : ConnectionState → Text
state_text connected = codes "connected"
state_text disconnected = codes "disconnected"
state_text error = codes "error"

abbrev text_of : List ConnectionStatus → Text
text_of [] = []
text_of (s ∷ ss) = state_text s.state ++ text_of ss

abbrev with_hub : ConnectorRegistry ConnectionState ℕ (Unit {0})
with_hub = record init {
  sse_hub = true;
  connectors = ("switch", connected) ∷ [];
  status_poll_interval = true;
}

abbrev three_polls : List (Dict ConnectionState)
three_polls =
    (("switch", connected) ∷ []) ∷ (("switch", connected) ∷ []) ∷ (("switch", error) ∷ []) ∷ []

polls-broadcasts_example :
    (polls switch text_of three_polls with_hub).broadcasts
    ≡ with_hub.broadcasts
      ++ map connector_status (
          changes text_of with_hub.last_status_snapshot
            (map (gather switch.get_status) three_polls))
polls-broadcasts_example = polls-broadcasts switch text_of three_polls with_hub refl
