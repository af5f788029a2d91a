-- ===== src/Connector/Tests.antt =====
-- src/connectors/core/base-connector.ts on a connector with one connection.
use opcua_light_server.Prelude.{
  ℕ, String, ◌≡◌, refl, true, none, some, List, [], ◌∷◌, All, Dict, lookup, insert, delete, codes,
}
use opcua_light_server.Connector.Types.{
  ConnectionConfig, Mapping, good, bad, CurrentValue, Managed, Connector, object, extracted,
  Protocol, KeepsTimers,
}
use opcua_light_server.Connector.Quality.{requalify_all}
use opcua_light_server.Connector.Quality.Bad.{is_bad, requalify_all-is_bad}
use opcua_light_server.Connector.Base.{
  stop, remove_connection, add_connection, start, connection_failure, disconnect_and_cleanup,
  initiate_if, initiate, initiate_all, create_managed, handle_connection_error, connection_success,
}
use opcua_light_server.Connector.Base.Calls.{
  Call, adds, removes, starts, succeeds, fails_late, init, fresh, run, step, at_connection, late,
  at_removed, taken, kept,
}
use opcua_light_server.Connector.Base.Leaks.{stop-run-timers}
use opcua_light_server.Connector.Base.Ownership.{pending}
use opcua_light_server.Connector.Base.Loss.{IsLost, handle_connection_error-IsLost}
use opcua_light_server.Connector.Base.Removal.{connection_failure-remove_connection}

-- A protocol whose client is made at once.
abbrev plain : Protocol (Unit {0}) (Unit {0}) ℕ
plain = record {
  extract_params = λ config. extracted tt;
  initiate_connection = λ m w. (record m { connecting = true; client = some w.next_client }, w);
  close_client = λ m w. w;
}

plain-KeepsTimers : KeepsTimers plain
plain-KeepsTimers = record {
  initiate_timers = λ m w. refl;
  initiate_next = λ m w. refl;
  initiate_polling = λ m w. refl;
  initiate_reconnect = λ m w. refl;
  close_timers = λ m w. refl;
  close_next = λ m w. refl;
}

abbrev one_config : ConnectionConfig (Unit {0})
one_config = record {
  id = "c";
  type = "plain";
  name = "first";
  params = tt;
  polling_interval_ms = 1000;
  reconnect_interval_ms = 5000;
  enabled = true;
}

abbrev clock : String → ℕ
clock id = 7

-- A connection is removed during its handshake, which then fails, while another one polls.
abbrev polling_calls : List (Call (Unit {0}))
polling_calls =
    starts
    ∷ adds one_config
    ∷ removes "c"
    ∷ fails_late 0 clock clock (object none)
    ∷ adds one_config
    ∷ succeeds "c" clock clock
    ∷ []

stop-run-timers_example :
    let s = run plain polling_calls init in
    let after = (stop plain s.connector).core in
    ((t : ℕ) → pending after t ≡ true → kept s.removed t ≡ true)
    × (s.removed ≡ [] → after.world.timers ≡ [])
unfolding run step start init fresh add_connection at_connection initiate_if initiate initiate_all
    create_managed connection_success insert lookup remove_connection disconnect_and_cleanup
    connection_failure handle_connection_error late at_removed taken delete
stop-run-timers_example = stop-run-timers plain plain-KeepsTimers polling_calls refl

-- The handshake has begun.
abbrev during_handshake : Connector (Unit {0}) (Unit {0}) ℕ
during_handshake = (run plain (starts ∷ adds one_config ∷ []) init).connector

abbrev opening : Managed (Unit {0}) (Unit {0})
opening = record (create_managed one_config tt) { connecting = true; client = some 0 }

connection_failure-remove_connection_example :
    let s' = (remove_connection plain "c" during_handshake).0 in
    let m' = (disconnect_and_cleanup plain opening during_handshake.core).0 in
    let t = s'.core.world.next_timer in
    let r = connection_failure clock clock (object none) m' s'.core in
    (lookup "c" s'.connections ≡ none) × (r.0.reconnect_timer ≡ some t) × (pending r.1 t ≡ true)
unfolding run step start init fresh add_connection at_connection initiate_if initiate initiate_all
    create_managed insert lookup
connection_failure-remove_connection_example =
    connection_failure-remove_connection plain clock clock (object none) "c" opening
      during_handshake refl refl

abbrev level : Mapping
level = record { id = "m"; connection_id = "c"; node_id = some "n"; device_address = codes "HR:1" }

abbrev one_value : Dict (CurrentValue ℕ)
one_value =
    (
      "x",
      record {
        node_id = none;
        device_address = codes "HR:2";
        connection_id = "d";
        value = some 5;
        quality = good;
        timestamp = 1;
      },
    )
    ∷ []

requalify_all-is_bad_example :
    All
      (λ mp. is_bad (lookup mp.id (requalify_all bad clock "c" (level ∷ []) one_value)) ≡ true)
      (level ∷ [])
requalify_all-is_bad_example = requalify_all-is_bad clock "c" (level ∷ []) one_value

handle_connection_error-IsLost_example :
    let r = handle_connection_error clock clock (object none) opening during_handshake.core in
    IsLost (object none) opening r.0 during_handshake.core r.1
handle_connection_error-IsLost_example =
    handle_connection_error-IsLost clock clock (object none) opening during_handshake.core
