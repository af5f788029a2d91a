-- ===== src/Connector/Base.antt =====
-- src/connectors/core/base-connector.ts: the life of the connections of one protocol.
-- A managed connection is an object that its callbacks share: a method takes it and returns it anew,
-- and the public methods put it back under its id.
pub mod Ownership
pub mod Held
pub mod Calls
pub mod Owned
pub mod Leaks
pub mod Removal
pub mod Loss
use opcua_light_server.Prelude.{
  ℕ, String, Bool, true, false, ◌&&◌, Option, none, some, List, [], ◌∷◌, ◌++◌, if◌then◌else◌,
  is_empty, Text, codes, Dict, lookup, insert, delete, values, ◌==◌, is_some,
}
use opcua_light_server.Connector.Types.{
  ConnectionConfig, Mapping, bad, good, ConnectionState, connected, disconnected, error,
  ConnectionStatus, Managed, connection_failed, connected_to, already_cleaned_up, Core, Connector,
  already_exists, connection_not_found, mapping_not_found, bad_params, Outcome, returned, threw,
  Failure, string, object, extracted, rejected, Protocol,
}
use opcua_light_server.Connector.Timers.{
  log, clear, stop_polling, clear_reconnect, schedule_reconnect, start_polling,
}
use opcua_light_server.Connector.Quality.{emit_quality_update}

-- `typeof err === 'string' ? err : err?.message || 'Connection failed'`
unfoldable pub failure_message : Failure → Text
failure_message (string s) = s
failure_message (object none) = codes "Connection failed"
failure_message (object (some s)) = if is_empty s then codes "Connection failed" else s

abbrev pub was_connected : ConnectionState → ConnectionState
was_connected connected = disconnected
was_connected disconnected = error
was_connected error = error

-- `createManagedConnection`: a connection that is not yet made.
unfoldable pub create_managed : {P X : Type 0} → ConnectionConfig P → X → Managed P X
create_managed config params = record {
  config = config;
  params = params;
  client = none;
  state = disconnected;
  last_poll_at = none;
  error_message = none;
  polling_timer = none;
  reconnect_timer = none;
  mappings = [];
  connecting = false;
}

module _ {P X V : Type 0} where
  unfoldable pub on_value_update : Connector P X V → Connector P X V
  on_value_update s = record s { core = record s.core { has_callback = true } }

  -- `now` and `now'` are the clock during the quality update.
  unfoldable pub handle_connection_error :
      (String → ℕ) → (String → ℕ) → Failure → Managed P X → Core V → Managed P X × Core V
  unfolding failure_message stop_polling schedule_reconnect emit_quality_update
  handle_connection_error now now' err m c =
      let message = failure_message err in
      let m₁ = record m { state = was_connected m.state; error_message = some message } in
      let (m₂, c₂) = stop_polling m₁ (log (connection_failed m.config.name message) c) in
      let c₃ = emit_quality_update bad now now' m₂ c₂ in
      if c₃.running then schedule_reconnect m₂ c₃ else (m₂, c₃)

  module _ (p : Protocol P X V) where
    unfoldable pub initiate : Managed P X → Core V → Managed P X × Core V
    initiate m c = let (m', w') = p.initiate_connection m c.world in (m', record c { world = w' })

    unfoldable pub initiate_if : Bool → Managed P X → Core V → Managed P X × Core V
    unfolding initiate
    initiate_if b m c = if b then initiate m c else (m, c)

    unfoldable pub disconnect_and_cleanup : Managed P X → Core V → Managed P X × Core V
    unfolding stop_polling clear_reconnect
    disconnect_and_cleanup m c =
        let (m₁, c₁) = stop_polling m c in
        let (m₂, c₂) = clear_reconnect m₁ c₁ in
        (
          record m₂ {
            client = none;
            state = disconnected;
            connecting = false;
            error_message = none;
          },
          record c₂ { world = p.close_client m₂ c₂.world },
        )

    unfoldable pub add_connection : ConnectionConfig P → Connector P X V → Connector P X V × Outcome
    unfolding initiate_if create_managed
    add_connection config s = elim (lookup config.id s.connections) [
      | some m ↦ (s, threw (already_exists config.id))
      | none ↦ elim (p.extract_params config) [
        | rejected message ↦ (s, threw (bad_params message))
        | extracted params ↦
            let (m, c) =
              initiate_if (s.core.running && config.enabled) (create_managed config params)
                s.core in
            (record { connections = insert config.id m s.connections; core = c }, returned)
      ]
    ]

    unfoldable pub remove_connection : String → Connector P X V → Connector P X V × Outcome
    unfolding disconnect_and_cleanup
    remove_connection id s = elim (lookup id s.connections) [
      | none ↦ (s, threw (connection_not_found id))
      | some m ↦ (
        record {
          connections = delete id s.connections;
          core = (disconnect_and_cleanup m s.core).1;
        },
        returned,
      )
    ]

    -- What `updateConnection` does to a connection that was found. If the new parameters are
    -- rejected, the connection has been cut already.
    unfoldable pub update_managed :
        ConnectionConfig P → Managed P X → Connector P X V → Connector P X V × Outcome
    unfolding disconnect_and_cleanup initiate_if
    update_managed config m s =
        let (m₁, c₁) = disconnect_and_cleanup m s.core in
        elim (p.extract_params config) [
          | rejected message ↦ (
            record { connections = insert config.id m₁ s.connections; core = c₁ },
            threw (bad_params message),
          )
          | extracted params ↦
              let (m₂, c₂) =
                initiate_if (c₁.running && config.enabled)
                  (record m₁ { config = config; params = params }) c₁ in
              (record { connections = insert config.id m₂ s.connections; core = c₂ }, returned)
        ]

    unfoldable pub update_connection :
        ConnectionConfig P → Connector P X V → Connector P X V × Outcome
    unfolding add_connection update_managed
    update_connection config s = elim (lookup config.id s.connections) [
      | none ↦ add_connection config s
      | some m ↦ update_managed config m s
    ]

    -- The loops of `start` and `stop` over the connections.
    unfoldable pub initiate_all : Dict (Managed P X) → Core V → Dict (Managed P X) × Core V
    unfolding initiate_if
    initiate_all [] c = ([], c)
    initiate_all ((id, m) ∷ rest) c =
        let (m', c') = initiate_if m.config.enabled m c in
        let (rest', c'') = initiate_all rest c' in ((id, m') ∷ rest', c'')

    unfoldable pub cleanup_all : Dict (Managed P X) → Core V → Dict (Managed P X) × Core V
    unfolding disconnect_and_cleanup
    cleanup_all [] c = ([], c)
    cleanup_all ((id, m) ∷ rest) c =
        let (m', c') = disconnect_and_cleanup m c in
        let (rest', c'') = cleanup_all rest c' in ((id, m') ∷ rest', c'')

    unfoldable pub start : Connector P X V → Connector P X V
    unfolding initiate_all
    start s =
        let (connections, c) = initiate_all s.connections (record s.core { running = true }) in
        if s.core.running then s else record { connections = connections; core = c }

    unfoldable pub stop : Connector P X V → Connector P X V
    unfolding cleanup_all
    stop s =
        let (connections, c) = cleanup_all s.connections (record s.core { running = false }) in
        if s.core.running then record { connections = connections; core = c } else s

    -- The callback of the reconnection timer `t`, which has fired.
    unfoldable pub reconnect : ℕ → Managed P X → Core V → Managed P X × Core V
    unfolding initiate
    reconnect t m c =
        let m₁ = record m { reconnect_timer = none } in
        let c₁ = clear t c in
        if c₁.running
        then initiate (record m₁ { client = none; state = disconnected })
            (record c₁ { world = p.close_client m₁ c₁.world })
        else (m₁, c₁)

  -- The handshake of a connection has succeeded.
  unfoldable pub connection_success :
      (String → ℕ) → (String → ℕ) → Managed P X → Core V → Managed P X × Core V
  unfolding emit_quality_update start_polling
  connection_success now now' m c = elim m.client [
    | none ↦ (record m { connecting = false }, log (already_cleaned_up m.config.name) c)
    | some client ↦
        let m₁ = record m { connecting = false; state = connected; error_message = none } in
        start_polling m₁ (emit_quality_update good now now' m₁ (log (connected_to m.config.name) c))
  ]

  -- It has failed.
  unfoldable pub connection_failure :
      (String → ℕ) → (String → ℕ) → Failure → Managed P X → Core V → Managed P X × Core V
  unfolding handle_connection_error
  connection_failure now now' err m c =
      handle_connection_error now now' err (record m { connecting = false }) c
