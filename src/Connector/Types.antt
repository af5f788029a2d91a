-- ===== src/Connector/Types.antt =====
-- src/connectors/core/types.ts and the state of src/connectors/core/base-connector.ts.
-- Instants are numbers. `P` is the raw `params` of a connection, `X` what a protocol extracts from
-- it, `V` the values that devices deliver (`none` is `undefined`).
use opcua_light_server.Prelude.{◌≡◌, ℕ, String, Bool, Option, List, Text, Dict}

pub record ConnectionConfig (P : Type 0) : Type 0 where
  pub id : String
  pub type : String
  pub name : String
  pub params : P
  pub polling_interval_ms : ℕ
  pub reconnect_interval_ms : ℕ
  pub enabled : Bool

pub record Mapping : Type 0 where
  pub id : String
  pub connection_id : String
  pub node_id : Option String
  pub device_address : Text

pub data Quality : Type 0 where
  good bad : Quality

pub record ValueUpdate (V : Type 0) : Type 0 where
  pub node_id : String
  pub value : Option V
  pub quality : Quality
  pub timestamp : ℕ

pub data ConnectionState : Type 0 where
  connected disconnected error : ConnectionState

pub record ConnectionStatus : Type 0 where
  pub connection_id : String
  pub state : ConnectionState
  pub last_poll_at : Option ℕ
  pub error_message : Option Text

pub record CurrentValue (V : Type 0) : Type 0 where
  pub node_id : Option String
  pub device_address : Text
  pub connection_id : String
  pub value : Option V
  pub quality : Quality
  pub timestamp : ℕ

-- `BaseManagedConnection`, with the protocol's own fields as `params`. A client and a timer are the
-- numbers that they were created with.
pub record Managed (P X : Type 0) : Type 0 where
  pub config : ConnectionConfig P
  pub params : X
  pub client : Option ℕ
  pub state : ConnectionState
  pub last_poll_at : Option ℕ
  pub error_message : Option Text
  pub polling_timer : Option ℕ
  pub reconnect_timer : Option ℕ
  pub mappings : Dict Mapping
  pub connecting : Bool

-- What a connector logs, by the line that it writes.
pub data LogLine : Type 0 where
  connection_failed : String → Text → LogLine
  reconnecting : String → ℕ → LogLine
  connected_to : String → LogLine
  already_cleaned_up : String → LogLine

-- The outside of a connector: the pending timers of the event loop, the clients it made and closed,
-- the batches given to the registered callback, and the log lines, oldest first.
pub record World (V : Type 0) : Type 0 where
  pub timers : List ℕ
  pub next_timer : ℕ
  pub next_client : ℕ
  pub closed : List ℕ
  pub delivered : List (List (ValueUpdate V))
  pub logged : List LogLine

-- The fields of `BaseConnector` besides `connections`, with the outside.
pub record Core (V : Type 0) : Type 0 where
  pub running : Bool
  pub has_callback : Bool
  pub current_values : Dict (CurrentValue V)
  pub world : World V

pub record Connector (P X V : Type 0) : Type 0 where
  pub connections : Dict (Managed P X)
  pub core : Core V

pub data ConnectorError : Type 0 where
  already_exists connection_not_found mapping_not_found : String → ConnectorError
  bad_params : Text → ConnectorError

-- A public method returns or throws; what it did before it threw remains.
pub data Outcome : Type 0 where
  returned : Outcome
  threw : ConnectorError → Outcome

-- What a rejected promise carries: a string, or an object with or without a message.
pub data Failure : Type 0 where
  string : Text → Failure
  object : Option Text → Failure

-- What `extractParams` returns or throws.
pub data Extracted (X : Type 0) : Type 0 where
  extracted : X → Extracted X
  rejected : Text → Extracted X

-- The abstract methods of `BaseConnector` that a protocol implements.
pub record Protocol (P X V : Type 0) : Type 0 where
  pub extract_params : ConnectionConfig P → Extracted X
  pub initiate_connection : Managed P X → World V → Managed P X × World V
  pub close_client : Managed P X → World V → World V

-- What the base class relies on: opening and closing a client leaves the timers alone.
pub record KeepsTimers {P X V : Type 0} (p : Protocol P X V) : Type 0 where
  pub initiate_timers :
      (m : Managed P X) (w : World V) → (p.initiate_connection m w).1.timers ≡ w.timers
  pub initiate_next :
      (m : Managed P X) (w : World V) → (p.initiate_connection m w).1.next_timer ≡ w.next_timer
  pub initiate_polling :
      (m : Managed P X) (w : World V)
      → (p.initiate_connection m w).0.polling_timer ≡ m.polling_timer
  pub initiate_reconnect :
      (m : Managed P X) (w : World V)
      → (p.initiate_connection m w).0.reconnect_timer ≡ m.reconnect_timer
  pub close_timers : (m : Managed P X) (w : World V) → (p.close_client m w).timers ≡ w.timers
  pub close_next : (m : Managed P X) (w : World V) → (p.close_client m w).next_timer ≡ w.next_timer
