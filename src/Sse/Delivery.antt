-- ===== src/Sse/Delivery.antt =====
-- src/api/sse-hub.ts: who receives an event, and who stays connected.
use mathlib.Core.List.{append_assoc, append-nil}
use opcua_light_server.Prelude.{
  ℕ, String, ◌≡◌, refl, sym, ◌∙◌, Bool, true, false, List, [], ◌∷◌, ◌++◌, map, arith, keep, not,
  Dict, HasUniqueKeys, delete-middle, delete-HasUniqueKeys, Bool-cases, lookup-middle_self, inl,
  inr,
}
use opcua_light_server.Sse.{
  SseClient, SseHub, SseEventType, HubEvent, client_removed, write_to, write_all, remove_client,
  format_event, broadcast, end_all, shutdown,
}

module _ (writable : ℕ → Bool) (payload : String) where
  abbrev pub reachable : Dict SseClient → Dict SseClient
  reachable = keep (λ e. writable e.1.res)

  abbrev pub unreachable : Dict SseClient → Dict SseClient
  unreachable = keep (λ e. not (writable e.1.res))

  abbrev pub writes : Dict SseClient → List (ℕ × String)
  writes d = map (λ e. (e.1.res, payload)) (reachable d)

  abbrev pub removals : Dict SseClient → List HubEvent
  removals d = map (λ e. client_removed e.0) (unreachable d)

  write_to-sent :
      (id : String) (c : SseClient) (hub : SseHub)
      → writable c.res ≡ true
      → write_to writable id c payload hub
        ≡ record hub { written = hub.written ++ (c.res, payload) ∷ [] }
  unfolding write_to
  write_to-sent id c hub h = rw h refl

  write_to-lost :
      (pre : Dict SseClient) (id : String) (c : SseClient) (rest : Dict SseClient) (hub : SseHub)
      → hub.clients ≡ pre ++ (id, c) ∷ rest
      → HasUniqueKeys (pre ++ (id, c) ∷ rest)
      → writable c.res ≡ false
      → write_to writable id c payload hub
        ≡ record hub { clients = pre ++ rest; emitted = hub.emitted ++ client_removed id ∷ [] }
  unfolding write_to remove_client
  write_to-lost pre id c rest hub e u h =
      ground (arith, lookup-middle_self pre id c rest u, delete-middle pre id c rest u)

  write_all-eq :
      (pre rest : Dict SseClient) (hub : SseHub)
      → hub.clients ≡ pre ++ rest
      → HasUniqueKeys (pre ++ rest)
      → write_all writable rest payload hub ≡ record hub {
        clients = pre ++ reachable rest;
        written = hub.written ++ writes rest;
        emitted = hub.emitted ++ removals rest;
      }
  unfolding write_all
  write_all-eq pre [] hub e u = ground (arith, append-nil hub.written, append-nil hub.emitted)
  write_all-eq pre ((id, c) ∷ rest) hub e u = elim (Bool-cases (writable c.res)) [
    | inl sent ↦ rw (write_to-sent id c hub sent) (
        write_all-eq (pre ++ (id, c) ∷ []) rest
          (record hub { written = hub.written ++ (c.res, payload) ∷ [] })
          (e ∙ sym (append_assoc pre ((id, c) ∷ []) rest))
          (rw (append_assoc pre ((id, c) ∷ []) rest) u)
        ∙ ground (
          arith,
          append_assoc pre ((id, c) ∷ []) (reachable rest),
          append_assoc hub.written ((c.res, payload) ∷ []) (writes rest),
        ))
    | inr lost ↦ rw (write_to-lost pre id c rest hub e u lost) (
        write_all-eq pre rest
          (record hub { clients = pre ++ rest; emitted = hub.emitted ++ client_removed id ∷ [] })
          refl
          (rw (← delete-middle pre id c rest u) (delete-HasUniqueKeys id (pre ++ (id, c) ∷ rest) u))
        ∙ ground (arith, append_assoc hub.emitted (client_removed id ∷ []) (removals rest)))
  ]

-- A broadcast to a hub whose clients have distinct ids writes the formatted event exactly once to
-- each client whose response takes it, in the order of connection, and removes exactly the others,
-- with one `clientRemoved` for each; nothing else changes.
pub broadcast-eq :
    (writable : ℕ → Bool) {D : Type 0} (stringify : D → String) (event_type : SseEventType)
    (content : D) (hub : SseHub)
    → HasUniqueKeys hub.clients
    → let payload = format_event event_type (stringify content) in
      broadcast writable stringify event_type content hub ≡ record hub {
        clients = reachable writable payload hub.clients;
        written = hub.written ++ writes writable payload hub.clients;
        emitted = hub.emitted ++ removals writable payload hub.clients;
      }
unfolding broadcast
broadcast-eq writable stringify event_type content hub u =
    write_all-eq writable (format_event event_type (stringify content)) [] hub.clients hub refl u

end_all-eq :
    (rest : Dict SseClient) (hub : SseHub)
    → hub.clients ≡ rest
    → HasUniqueKeys rest
    → end_all rest hub ≡ record hub { clients = []; ended = hub.ended ++ map (λ e. e.1.res) rest }
unfolding end_all
end_all-eq [] hub e u = ground (arith, append-nil hub.ended)
end_all-eq ((id, c) ∷ rest) hub e u =
    rw (e, delete-middle [] id c rest u)
      (end_all-eq rest (record hub { clients = rest; ended = hub.ended ++ c.res ∷ [] }) refl u.1
        ∙ ground (arith, append_assoc hub.ended (c.res ∷ []) (map (λ e. e.1.res) rest)))

-- Shutting down a hub whose clients have distinct ids ends every client's response once, in order,
-- leaves no client and stops the heartbeat.
pub shutdown-eq :
    (hub : SseHub)
    → HasUniqueKeys hub.clients
    → shutdown hub ≡ record hub {
      clients = [];
      heartbeat = false;
      ended = hub.ended ++ map (λ e. e.1.res) hub.clients;
    }
unfolding shutdown
shutdown-eq hub u = end_all-eq hub.clients (record hub { heartbeat = false }) refl u
