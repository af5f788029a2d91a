-- ===== src/Sse.antt =====
-- src/api/sse-hub.ts: the connected event-stream clients and what is written to them.
-- A response object is its number; `writable` says whether a write to it succeeds (a write to a
-- closed one throws), and `stringify` is `JSON.stringify`, which the hub only calls.
pub mod Delivery
pub mod Calls
pub mod Tests
use opcua_light_server.Prelude.{
  ℕ, String, Bool, true, false, Option, none, some, List, [], ◌∷◌, ◌++◌, if◌then◌else◌, length,
  Dict, lookup, insert, delete,
}
use Prim.Native.String

pub record SseClient : Type 0 where
  pub id : String
  pub res : ℕ
  pub connected_at : String

pub data SseEventType : Type 0 where
  server_status server_clients log_entry connector_status connector_values : SseEventType

pub event_name : SseEventType → String
event_name server_status = "server:status"
event_name server_clients = "server:clients"
event_name log_entry = "log:entry"
event_name connector_status = "connector:status"
event_name connector_values = "connector:values"

-- What the hub emits to its own listeners.
pub data HubEvent : Type 0 where
  client_added client_removed : String → HubEvent

-- `written` and `ended` are what the responses received, oldest first.
pub record SseHub : Type 0 where
  pub clients : Dict SseClient
  pub heartbeat : Bool
  pub emitted : List HubEvent
  pub written : List (ℕ × String)
  pub ended : List ℕ

pub init : SseHub
init = record { clients = []; heartbeat = false; emitted = []; written = []; ended = [] }

pub add_client : String → ℕ → String → SseHub → SseHub
add_client id res now hub = record hub {
  clients = insert id (record { id = id; res = res; connected_at = now }) hub.clients;
  emitted = hub.emitted ++ client_added id ∷ [];
}

pub remove_client : String → SseHub → SseHub
remove_client id hub = elim (lookup id hub.clients) [
  | none ↦ hub
  | some client ↦ record hub {
    clients = delete id hub.clients;
    emitted = hub.emitted ++ client_removed id ∷ [];
  }
]

pub format_event : SseEventType → String → String
unfolding event_name
format_event event_type json =
    String.◌++◌ "event: "
      (String.◌++◌ (event_name event_type) (String.◌++◌ "\ndata: " (String.◌++◌ json "\n\n")))

module _ (writable : ℕ → Bool) where
  -- The `try` block of `broadcast`, `sendToClient` and `sendHeartbeat` for one client.
  pub write_to : String → SseClient → String → SseHub → SseHub
  unfolding remove_client
  write_to id client payload hub =
      if writable client.res
      then record hub { written = hub.written ++ (client.res, payload) ∷ [] }
      else remove_client id hub

  -- The loop over the clients.
  pub write_all : Dict SseClient → String → SseHub → SseHub
  write_all [] payload hub = hub
  write_all ((id, client) ∷ rest) payload hub =
      write_all rest payload (write_to id client payload hub)

  pub send_heartbeat : SseHub → SseHub
  send_heartbeat hub = write_all hub.clients ":heartbeat\n\n" hub

  module _ {D : Type 0} (stringify : D → String) where
    pub broadcast : SseEventType → D → SseHub → SseHub
    broadcast event_type content hub =
        write_all hub.clients (format_event event_type (stringify content)) hub

    pub send_to_client : String → SseEventType → D → SseHub → SseHub
    unfolding write_to
    send_to_client id event_type content hub = elim (lookup id hub.clients) [
      | none ↦ hub
      | some client ↦ write_to id client (format_event event_type (stringify content)) hub
    ]

pub start_heartbeat : SseHub → SseHub
start_heartbeat hub = if hub.heartbeat then hub else record hub { heartbeat = true }

-- The loop of `shutdown`: `res.end()`, whose failure is ignored, and the entry is deleted.
pub end_all : Dict SseClient → SseHub → SseHub
end_all [] hub = hub
end_all ((id, client) ∷ rest) hub =
    end_all rest
      (record hub { ended = hub.ended ++ client.res ∷ []; clients = delete id hub.clients })

pub shutdown : SseHub → SseHub
unfolding end_all
shutdown hub = end_all hub.clients (record hub { heartbeat = false })

pub get_client_count : SseHub → ℕ
get_client_count hub = length hub.clients
