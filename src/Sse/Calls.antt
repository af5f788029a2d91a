-- ===== src/Sse/Calls.antt =====
-- src/api/sse-hub.ts: the hub over any sequence of calls.
use opcua_light_server.Prelude.{
  ℕ, String, ◌≡◌, refl, Bool, List, [], ◌∷◌, Dict, arith, All, lookup, insert, delete,
  HasUniqueKeys, Option-cases, insert-HasUniqueKeys, delete-HasUniqueKeys, Bool-cases, inl, inr,
}
use opcua_light_server.Sse.{
  SseClient, SseHub, SseEventType, init, add_client, remove_client, write_to, write_all, broadcast,
  send_to_client, send_heartbeat, start_heartbeat, shutdown, end_all,
}

pub data HubCall (D : Type 0) : Type 0 where
  adds : String → ℕ → String → HubCall D
  removes : String → HubCall D
  broadcasts : SseEventType → D → HubCall D
  sends : String → SseEventType → D → HubCall D
  beats starts shuts_down : HubCall D

-- Each call comes with what the responses take at that time.
pub step : {D : Type 0} → (D → String) → (ℕ → Bool) → HubCall D → SseHub → SseHub
step stringify writable (adds id res now) hub = add_client id res now hub
step stringify writable (removes id) hub = remove_client id hub
step stringify writable (broadcasts e content) hub = broadcast writable stringify e content hub
step stringify writable (sends id e content) hub =
    send_to_client writable stringify id e content hub
step stringify writable beats hub = send_heartbeat writable hub
step stringify writable starts hub = start_heartbeat hub
step stringify writable shuts_down hub = shutdown hub

pub run : {D : Type 0} → (D → String) → List ((ℕ → Bool) × HubCall D) → SseHub → SseHub
run stringify [] hub = hub
run stringify ((writable, call) ∷ calls) hub =
    run stringify calls (step stringify writable call hub)

-- No two clients under one id, and each under its own.
pub record IsWellFormed (hub : SseHub) : Type 0 where
  pub unique : HasUniqueKeys hub.clients
  pub filed : All (λ e. e.1.id ≡ e.0) hub.clients

insert-filed :
    (c : SseClient) (d : Dict SseClient)
    → All (λ e. e.1.id ≡ e.0) d
    → All (λ e. e.1.id ≡ e.0) (insert c.id c d)
unfolding insert
insert-filed c [] h = (refl, tt)
insert-filed c ((i, w) ∷ d) h = ground (arith, insert-filed c d h.1)

delete-filed :
    (k : String) (d : Dict SseClient)
    → All (λ e. e.1.id ≡ e.0) d
    → All (λ e. e.1.id ≡ e.0) (delete k d)
unfolding delete
delete-filed k [] h = tt
delete-filed k ((i, w) ∷ d) h = ground (arith, delete-filed k d h.1)

add_client-IsWellFormed :
    (id : String) (res : ℕ) (now : String) (hub : SseHub)
    → IsWellFormed hub
    → IsWellFormed (add_client id res now hub)
unfolding add_client
add_client-IsWellFormed id res now hub v = record {
  unique = insert-HasUniqueKeys id _ hub.clients v.unique;
  filed = insert-filed (record { id = id; res = res; connected_at = now }) hub.clients v.filed;
}

remove_client-IsWellFormed :
    (id : String) (hub : SseHub) → IsWellFormed hub → IsWellFormed (remove_client id hub)
unfolding remove_client
remove_client-IsWellFormed id hub v = elim (Option-cases (lookup id hub.clients)) [
  | inl e ↦ rw (e, remove_client) v
  | inr (c, e) ↦
      rw (e, remove_client)
        (record {
          unique = delete-HasUniqueKeys id hub.clients v.unique;
          filed = delete-filed id hub.clients v.filed;
        })
]

write_to-IsWellFormed :
    (writable : ℕ → Bool) (id : String) (c : SseClient) (payload : String) (hub : SseHub)
    → IsWellFormed hub
    → IsWellFormed (write_to writable id c payload hub)
unfolding write_to
write_to-IsWellFormed writable id c payload hub v = elim (Bool-cases (writable c.res)) [
  | inl e ↦ rw e (record { unique = v.unique; filed = v.filed })
  | inr e ↦ rw e (remove_client-IsWellFormed id hub v)
]

write_all-IsWellFormed :
    (writable : ℕ → Bool) (rest : Dict SseClient) (payload : String) (hub : SseHub)
    → IsWellFormed hub
    → IsWellFormed (write_all writable rest payload hub)
unfolding write_all
write_all-IsWellFormed writable [] payload hub v = v
write_all-IsWellFormed writable ((id, c) ∷ rest) payload hub v =
    write_all-IsWellFormed writable rest payload _
      (write_to-IsWellFormed writable id c payload hub v)

end_all-IsWellFormed :
    (rest : Dict SseClient) (hub : SseHub) → IsWellFormed hub → IsWellFormed (end_all rest hub)
unfolding end_all
end_all-IsWellFormed [] hub v = v
end_all-IsWellFormed ((id, c) ∷ rest) hub v = end_all-IsWellFormed rest _ (record {
  unique = delete-HasUniqueKeys id hub.clients v.unique;
  filed = delete-filed id hub.clients v.filed;
})

-- Every call of the hub, whichever responses can be written, keeps the clients under distinct ids,
-- each under its own.
pub step-IsWellFormed :
    {D : Type 0} (stringify : D → String) (writable : ℕ → Bool) (call : HubCall D) (hub : SseHub)
    → IsWellFormed hub
    → IsWellFormed (step stringify writable call hub)
unfolding step broadcast send_heartbeat send_to_client start_heartbeat shutdown
step-IsWellFormed stringify writable (adds id res now) hub v =
    add_client-IsWellFormed id res now hub v
step-IsWellFormed stringify writable (removes id) hub v = remove_client-IsWellFormed id hub v
step-IsWellFormed stringify writable (broadcasts e content) hub v =
    write_all-IsWellFormed writable hub.clients _ hub v
step-IsWellFormed stringify writable (sends id e content) hub v =
    elim (Option-cases (lookup id hub.clients)) [
      | inl m ↦ rw (m, send_to_client) v
      | inr (c, m) ↦ rw (m, send_to_client) (write_to-IsWellFormed writable id c _ hub v)
    ]
step-IsWellFormed stringify writable beats hub v =
    write_all-IsWellFormed writable hub.clients _ hub v
step-IsWellFormed stringify writable starts hub v = ground arith
step-IsWellFormed stringify writable shuts_down hub v =
    end_all-IsWellFormed hub.clients _ (record { unique = v.unique; filed = v.filed })

pub run-IsWellFormed :
    {D : Type 0} (stringify : D → String) (calls : List ((ℕ → Bool) × HubCall D)) (hub : SseHub)
    → IsWellFormed hub
    → IsWellFormed (run stringify calls hub)
unfolding run
run-IsWellFormed stringify [] hub v = v
run-IsWellFormed stringify ((writable, call) ∷ calls) hub v =
    run-IsWellFormed stringify calls _ (step-IsWellFormed stringify writable call hub v)

-- After any sequence of calls on a new hub the clients stand under distinct ids, each under its own.
pub run-init-IsWellFormed :
    {D : Type 0} (stringify : D → String) (calls : List ((ℕ → Bool) × HubCall D))
    → IsWellFormed (run stringify calls init)
unfolding init
run-init-IsWellFormed stringify calls =
    run-IsWellFormed stringify calls init (record { unique = tt; filed = tt })
