-- ===== src/Connector/Base/Owned.antt =====
-- src/connectors/core/base-connector.ts: the calls leak no timer.
use opcua_light_server.Prelude.{
  Bool, ℕ, ◌≡◌, refl, true, false, ◌&&◌, Option, none, some, arith, String, lookup, insert,
  Option-cases, ◌⊎◌, Text, inl, inr, insert-HasUniqueKeys, delete-HasUniqueKeys, if-rule,
}
use opcua_light_server.Connector.Types.{
  ConnectionConfig, Mapping, Managed, Core, Connector, Protocol, KeepsTimers, extracted, rejected,
  Extracted,
}
use opcua_light_server.Connector.Mappings.{add_mapping, remove_mapping, drop_mapping}
use opcua_light_server.Connector.Base.{
  add_connection, remove_connection, update_connection, start, stop, create_managed, initiate_if,
  disconnect_and_cleanup, update_managed,
}
use opcua_light_server.Connector.Base.Ownership.{
  is_handle, pending, IsTidy, IsTidy-trans, initiate_if-same, initiate_if-IsTidy,
  disconnect_and_cleanup-IsTidy, disconnect_and_cleanup-holds, reconnect-IsTidy,
}
use opcua_light_server.Connector.Base.Held.{
  held-insert-of_none, held-delete, drop_mapping-held, drop_mapping-HasUniqueKeys,
  initiate_all-held, initiate_all-HasUniqueKeys, cleanup_all-held, cleanup_all-HasUniqueKeys,
}
use opcua_light_server.Connector.Base.Calls.{fire, IsOwned, put-IsOwned}

Extracted-cases :
    {X : Type 0} (e : Extracted X) → ((x : X) × (e ≡ extracted x)) ⊎ ((t : Text) × (e ≡ rejected t))
Extracted-cases (extracted x) = inl (x, refl)
Extracted-cases (rejected t) = inr (t, refl)

is_handle-eq : (o : Option ℕ) (t : ℕ) → is_handle o t ≡ true → o ≡ some t
is_handle-eq none t h = cc
is_handle-eq (some u) t h = ground arith

module _ {P X V : Type 0} (p : Protocol P X V) (k : KeepsTimers p) (others : ℕ → Bool) where
  pub add_connection-IsOwned :
      (config : ConnectionConfig P) (s : Connector P X V)
      → IsOwned others s
      → IsOwned others (add_connection p config s).0
  unfolding add_connection
  add_connection-IsOwned config s v = elim (Option-cases (lookup config.id s.connections)) [
    | inr (m, e) ↦ rw (e, add_connection) v
    | inl e ↦ elim (Extracted-cases (p.extract_params config)) [
      | inr (message, z) ↦ rw (e, z, add_connection) v
      | inl (x, z) ↦
          let r =
            initiate_if p (s.core.running && config.enabled) (create_managed config x) s.core in
          rw (e, z, add_connection)
            (record {
              unique = insert-HasUniqueKeys config.id r.0 s.connections v.unique;
              owned = λ t h. ground (
                arith,
                v.owned t,
                held-insert-of_none config.id r.0 s.connections t e,
                initiate_if-same p k (s.core.running && config.enabled) (create_managed config x)
                    s.core t,
              );
            })
    ]
  ]

  update_managed-IsOwned :
      (config : ConnectionConfig P) (m : Managed P X) (s : Connector P X V)
      → lookup config.id s.connections ≡ some m
      → IsOwned others s
      → IsOwned others (update_managed p config m s).0
  unfolding update_managed
  update_managed-IsOwned config m s e v =
      let r = disconnect_and_cleanup p m s.core in
      let tidy = disconnect_and_cleanup-IsTidy p k m s.core in
      elim (Extracted-cases (p.extract_params config)) [
        | inr (message, z) ↦ rw (z, update_managed) (put-IsOwned others config.id m s r v e tidy)
        | inl (x, z) ↦
            let m₁ : Managed P X = record r.0 { config = config; params = x } in
            let b = r.1.running && config.enabled in
            let r' = initiate_if p b m₁ r.1 in
            rw (z, update_managed)
              (put-IsOwned others config.id m s r' v e
                (IsTidy-trans m s.core r r' tidy (λ t h. initiate_if-IsTidy p k b m₁ r.1 t h)))
      ]

  pub update_connection-IsOwned :
      (config : ConnectionConfig P) (s : Connector P X V)
      → IsOwned others s
      → IsOwned others (update_connection p config s).0
  unfolding update_connection
  update_connection-IsOwned config s v = elim (Option-cases (lookup config.id s.connections)) [
    | inl e ↦ rw (e, update_connection) (add_connection-IsOwned config s v)
    | inr (m, e) ↦ rw (e, update_connection) (update_managed-IsOwned config m s e v)
  ]

  pub remove_connection-IsOwned :
      (id : String) (s : Connector P X V)
      → IsOwned others s
      → IsOwned others (remove_connection p id s).0
  unfolding remove_connection
  remove_connection-IsOwned id s v = elim (Option-cases (lookup id s.connections)) [
    | inl e ↦ rw (e, remove_connection) v
    | inr (m, e) ↦
        rw (e, remove_connection)
          (record {
            unique = delete-HasUniqueKeys id s.connections v.unique;
            owned = λ t h. ground (
              arith,
              disconnect_and_cleanup-IsTidy p k m s.core t h,
              disconnect_and_cleanup-holds p k m s.core t,
              v.owned t,
              held-delete id m s.connections t v.unique e,
            );
          })
  ]

  pub start-IsOwned : (s : Connector P X V) → IsOwned others s → IsOwned others (start p s)
  unfolding start
  start-IsOwned s v =
      let c = record s.core { running = true } in
      if-rule (IsOwned others) s.core.running (λ _. v)
        (λ _. record {
          unique = initiate_all-HasUniqueKeys p k s.connections c v.unique;
          owned = λ t h. ground (arith, initiate_all-held p k s.connections c t, v.owned t);
        })

  pub stop-IsOwned : (s : Connector P X V) → IsOwned others s → IsOwned others (stop p s)
  unfolding stop
  stop-IsOwned s v =
      let c = record s.core { running = false } in
      if-rule (IsOwned others) s.core.running
        (λ _. record {
          unique = cleanup_all-HasUniqueKeys p k s.connections c v.unique;
          owned = λ t h. ground (arith, cleanup_all-held p k s.connections c t h, v.owned t);
        })
        (λ _. v)

  pub remove_mapping-IsOwned :
      (id : String) (s : Connector P X V)
      → IsOwned others s
      → IsOwned others (remove_mapping id s).0
  unfolding remove_mapping
  remove_mapping-IsOwned id s v = elim (Option-cases (drop_mapping id s.connections)) [
    | inl e ↦ rw (e, remove_mapping) v
    | inr (d, e) ↦
        rw (e, remove_mapping)
          (record {
            unique = drop_mapping-HasUniqueKeys id s.connections d e v.unique;
            owned = λ t h. ground (arith, drop_mapping-held id s.connections d t e, v.owned t);
          })
  ]

  pub add_mapping-IsOwned :
      (mapping : Mapping) (s : Connector P X V)
      → IsOwned others s
      → IsOwned others (add_mapping mapping s).0
  unfolding add_mapping
  add_mapping-IsOwned mapping s v =
      elim (Option-cases (lookup mapping.connection_id s.connections)) [
        | inl e ↦ rw (e, add_mapping) v
        | inr (m, e) ↦
            let m' : Managed P X = record m { mappings = insert mapping.id mapping m.mappings } in
            rw (e, add_mapping)
              (put-IsOwned others mapping.connection_id m s (m', s.core) v e (λ t h. ground arith))
      ]

  pub fire-IsTidy : (t : ℕ) (m : Managed P X) (c : Core V) → IsTidy m c (fire p t m c)
  unfolding fire
  fire-IsTidy t m c =
      if-rule (IsTidy m c) (is_handle m.reconnect_timer t && pending c t)
        (λ e. reconnect-IsTidy p k t m c (is_handle-eq m.reconnect_timer t (ground arith)))
        (λ _ u h. ground arith)
