-- ===== src/Modbus/Client.antt =====
-- src/connectors/protocols/modbus-tcp/index.ts: what the Modbus connector adds to the base class.
use opcua_light_server.Prelude.{
  ℕ, suc, true, Option, none, some, [], ◌∷◌, ◌++◌, if◌then◌else◌, is_empty, Text, codes, lookup,
  arith,
}
use opcua_light_server.Connector.Types.{
  ConnectionConfig, Mapping, Managed, World, Connector, Extracted, extracted, rejected, Protocol,
  KeepsTimers, Outcome, threw, bad_params, connection_not_found,
}
use opcua_light_server.Connector.Mappings.{add_mapping}
use opcua_light_server.Modbus.Address.{parse_device_address, parsed, invalid, error_text}

-- `config.params` as the connector reads it: a missing member is `none`.
pub record RawParams : Type 0 where
  pub host : Option Text
  pub port : Option ℕ
  pub unit_id : Option ℕ

pub record ModbusParams : Type 0 where
  pub host : Text
  pub port : ℕ
  pub unit_id : ℕ

abbrev or_else : Option ℕ → ℕ → ℕ
or_else none d = d
or_else (some n) d = n

-- The message without the connection's name.
pub extract_params : ConnectionConfig RawParams → Extracted ModbusParams
extract_params config = elim config.params.host [
  | none ↦ rejected (codes "requires a 'host' parameter")
  | some host ↦
      if is_empty host
      then rejected (codes "requires a 'host' parameter")
      else extracted (record {
        host = host;
        port = or_else config.params.port 502;
        unit_id = or_else config.params.unit_id 1;
      })
]

module _ {V : Type 0} where
  -- The synchronous part: the handshake's end comes later.
  pub initiate_connection :
      Managed RawParams ModbusParams → World V → Managed RawParams ModbusParams × World V
  initiate_connection m w = if m.connecting then (m, w) else (
    record m { connecting = true; client = some w.next_client },
    record w { next_client = suc w.next_client },
  )

  pub close_client : Managed RawParams ModbusParams → World V → World V
  close_client m w = elim m.client [
    | none ↦ w
    | some client ↦ record w { closed = w.closed ++ client ∷ [] }
  ]

  unfoldable pub modbus : Protocol RawParams ModbusParams V
  unfolding extract_params initiate_connection close_client
  modbus = record {
    extract_params = extract_params;
    initiate_connection = initiate_connection;
    close_client = close_client;
  }

  -- What the base class relies on holds of the Modbus connector.
  pub modbus-KeepsTimers : KeepsTimers modbus
  unfolding modbus
  modbus-KeepsTimers = record {
    initiate_timers = λ m w. ground arith;
    initiate_next = λ m w. ground arith;
    initiate_polling = λ m w. ground arith;
    initiate_reconnect = λ m w. ground arith;
    close_timers = λ m w. ground arith;
    close_next = λ m w. ground arith;
  }

  -- The override: the address is checked before the mapping is stored.
  pub add_modbus_mapping :
      Mapping → Connector RawParams ModbusParams V → Connector RawParams ModbusParams V × Outcome
  unfolding add_mapping
  add_modbus_mapping mapping s = elim (lookup mapping.connection_id s.connections) [
    | none ↦ (s, threw (connection_not_found mapping.connection_id))
    | some m ↦ elim (parse_device_address mapping.device_address) [
      | invalid e ↦ (s, threw (bad_params (error_text e)))
      | parsed a ↦ add_mapping mapping s
    ]
  ]
