-- ===== src/Sse/Tests.antt =====
-- src/api/sse-hub.ts on a hub with two clients, of which the second has gone.
use opcua_light_server.Prelude.{ℕ, String, ◌≡◌, refl, Bool, true, List, [], ◌∷◌, ◌++◌, ◌==◌, lookup}
use opcua_light_server.Sse.{SseHub, log_entry, broadcast, format_event}
use opcua_light_server.Sse.Delivery.{reachable, writes, removals, broadcast-eq}
use opcua_light_server.Sse.Calls.{HubCall, adds, broadcasts, starts, shuts_down}

abbrev two_clients : SseHub
two_clients = record {
  clients =
      ("a", record { id = "a"; res = 1; connected_at = "t" })
      ∷ ("b", record { id = "b"; res = 2; connected_at = "t" })
      ∷ [];
  heartbeat = true;
  emitted = [];
  written = [];
  ended = [];
}

abbrev only_first : ℕ → Bool
only_first res = res == 1

abbrev as_is : String → String
as_is s = s

broadcast-eq_example : broadcast only_first as_is log_entry "x" two_clients ≡ record two_clients {
  clients = reachable only_first (format_event log_entry "x") two_clients.clients;
  written = [] ++ writes only_first (format_event log_entry "x") two_clients.clients;
  emitted = [] ++ removals only_first (format_event log_entry "x") two_clients.clients;
}
unfolding lookup
broadcast-eq_example = broadcast-eq only_first as_is log_entry "x" two_clients (refl, (refl, tt))

abbrev hub_calls : List ((ℕ → Bool) × HubCall String)
hub_calls =
    (only_first, adds "a" 1 "t")
    ∷ (only_first, adds "a" 2 "t")
    ∷ (only_first, starts)
    ∷ (only_first, broadcasts log_entry "x")
    ∷ (only_first, shuts_down)
    ∷ []
