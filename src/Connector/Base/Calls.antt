-- ===== src/Connector/Base/Calls.antt =====
-- src/connectors/core/base-connector.ts: the connector over any sequence of calls and of events at
-- its connections.
use opcua_light_server.Prelude.{
  ℕ, zero, suc, Bool, ◌||◌, ◌++◌, ◌≡◌, true, false, ◌&&◌, none, some, List, [], ◌∷◌, arith, String,
  lookup, insert, HasUniqueKeys, Option-cases, inl, inr, if◌then◌else◌, insert-HasUniqueKeys,
}
use opcua_light_server.Connector.Types.{
  ConnectionConfig, Mapping, Managed, Core, Connector, Failure, Protocol,
}
use opcua_light_server.Connector.Mappings.{add_mapping, remove_mapping}
use opcua_light_server.Connector.Base.{
  on_value_update, disconnect_and_cleanup, add_connection, remove_connection, update_connection,
  start, stop, reconnect, connection_success, connection_failure,
}
use opcua_light_server.Connector.Base.Ownership.{is_handle, holds, pending, IsTidy}
use opcua_light_server.Connector.Base.Held.{held, held-insert_new, held-insert_old}

-- The second last three are events at the connection with the given id: its handshake succeeds or
-- fails, or its reconnection timer fires. The last three are the same events at the object of a
-- connection that was removed, which the event loop still has: the latest removed is number 0.
pub data Call (P : Type 0) : Type 0 where
  adds updates : ConnectionConfig P → Call P
  removes : String → Call P
  maps : Mapping → Call P
  unmaps : String → Call P
  registers starts stops : Call P
  succeeds : String → (String → ℕ) → (String → ℕ) → Call P
  fails : String → (String → ℕ) → (String → ℕ) → Failure → Call P
  fires : String → ℕ → Call P
  succeeds_late : ℕ → (String → ℕ) → (String → ℕ) → Call P
  fails_late : ℕ → (String → ℕ) → (String → ℕ) → Failure → Call P
  fires_late : ℕ → ℕ → Call P

-- A connector, and the objects of the connections that were removed from it.
pub record Life (P X V : Type 0) : Type 0 where
  pub connector : Connector P X V
  pub removed : List (Managed P X)

-- A removed connection's object holds the timer.
abbrev pub kept : {P X : Type 0} → List (Managed P X) → ℕ → Bool
kept [] t = false
kept (m ∷ ms) t = holds m t || kept ms t

module _ {P X V : Type 0} where
  unfoldable pub fresh : Connector P X V
  fresh = record {
    connections = [];
    core = record {
      running = false;
      has_callback = false;
      current_values = [];
      world = record {
        timers = [];
        next_timer = 0;
        next_client = 0;
        closed = [];
        delivered = [];
        logged = [];
      };
    };
  }

  unfoldable pub init : Life P X V
  unfolding fresh
  init = record { connector = fresh; removed = [] }

  -- An event at a connection of the connector.
  unfoldable pub at_connection :
      String → (Managed P X → Core V → Managed P X × Core V) → Connector P X V → Connector P X V
  at_connection id f s = elim (lookup id s.connections) [
    | none ↦ s
    | some m ↦
        let (m', c) = f m s.core in record { connections = insert id m' s.connections; core = c }
  ]

  -- The timer fires only while it is pending and the connection's own.
  unfoldable pub fire : (p : Protocol P X V) → ℕ → Managed P X → Core V → Managed P X × Core V
  fire p t m c = if is_handle m.reconnect_timer t && pending c t then reconnect p t m c else (m, c)

  -- An event at a removed connection's object.
  unfoldable pub at_removed :
      ℕ
      → (Managed P X → Core V → Managed P X × Core V)
      → List (Managed P X)
      → Core V
      → List (Managed P X) × Core V
  at_removed n f [] c = ([], c)
  at_removed zero f (m ∷ ms) c = let r = f m c in (r.0 ∷ ms, r.1)
  at_removed (suc n) f (m ∷ ms) c = let r = at_removed n f ms c in (m ∷ r.0, r.1)

  unfoldable pub late : ℕ → (Managed P X → Core V → Managed P X × Core V) → Life P X V → Life P X V
  unfolding at_removed
  late n f s =
      let r = at_removed n f s.removed s.connector.core in
      record { connector = record s.connector { core = r.1 }; removed = r.0 }

  -- The object that `removeConnection` takes from the map, as its cleanup leaves it.
  unfoldable pub taken : Protocol P X V → String → Connector P X V → List (Managed P X)
  taken p id s = elim (lookup id s.connections) [
    | none ↦ []
    | some m ↦ (disconnect_and_cleanup p m s.core).0 ∷ []
  ]

  unfoldable pub step : Protocol P X V → Call P → Life P X V → Life P X V
  unfolding at_connection late taken
  step p (adds config) s = record s { connector = (add_connection p config s.connector).0 }
  step p (updates config) s = record s { connector = (update_connection p config s.connector).0 }
  step p (removes id) s = record {
    connector = (remove_connection p id s.connector).0;
    removed = taken p id s.connector ++ s.removed;
  }
  step p (maps mapping) s = record s { connector = (add_mapping mapping s.connector).0 }
  step p (unmaps id) s = record s { connector = (remove_mapping id s.connector).0 }
  step p registers s = record s { connector = on_value_update s.connector }
  step p starts s = record s { connector = start p s.connector }
  step p stops s = record s { connector = stop p s.connector }
  step p (succeeds id now now') s = record s {
    connector = at_connection id (connection_success now now') s.connector;
  }
  step p (fails id now now' err) s = record s {
    connector = at_connection id (connection_failure now now' err) s.connector;
  }
  step p (fires id t) s = record s { connector = at_connection id (fire p t) s.connector }
  step p (succeeds_late n now now') s = late n (connection_success now now') s
  step p (fails_late n now now' err) s = late n (connection_failure now now' err) s
  step p (fires_late n t) s = late n (fire p t) s

  unfoldable pub run : Protocol P X V → List (Call P) → Life P X V → Life P X V
  run p [] s = s
  run p (call ∷ calls) s = run p calls (step p call s)

  -- The connections have distinct ids, and every pending timer is held by one of them or is of
  -- the `others`.
  pub record IsOwned (others : ℕ → Bool) (s : Connector P X V) : Type 0 where
    pub unique : HasUniqueKeys s.connections
    pub owned : (t : ℕ) → pending s.core t ≡ true → (held s.connections t || others t) ≡ true

  pub put-IsOwned :
      (others : ℕ → Bool) (id : String) (m : Managed P X) (s : Connector P X V)
      (r : Managed P X × Core V)
      → IsOwned others s
      → lookup id s.connections ≡ some m
      → IsTidy m s.core r
      → IsOwned others (record { connections = insert id r.0 s.connections; core = r.1 })
  put-IsOwned others id m s r v e a = record {
    unique = insert-HasUniqueKeys id r.0 s.connections v.unique;
    owned = λ t h. ground (
      arith,
      a t h,
      v.owned t,
      held-insert_new id r.0 s.connections t,
      held-insert_old id m r.0 s.connections t e,
    );
  }

  pub at_connection-IsOwned :
      (others : ℕ → Bool) (id : String) (f : Managed P X → Core V → Managed P X × Core V)
      (s : Connector P X V)
      → ((m : Managed P X) → IsTidy m s.core (f m s.core))
      → IsOwned others s
      → IsOwned others (at_connection id f s)
  unfolding at_connection
  at_connection-IsOwned others id f s a v = elim (Option-cases (lookup id s.connections)) [
    | inl e ↦ rw (e, at_connection) v
    | inr (m, e) ↦ rw (e, at_connection) (put-IsOwned others id m s (f m s.core) v e (a m))
  ]
