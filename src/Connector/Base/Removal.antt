-- ===== src/Connector/Base/Removal.antt =====
-- src/connectors/core/base-connector.ts: a connection that is removed during its handshake.
use opcua_light_server.Prelude.{
  ℕ, ◌≡◌, refl, true, none, some, arith, String, eq_refl, ◌∙◌, lookup, lookup-delete,
  has_timer-append,
}
use opcua_light_server.Connector.Types.{Managed, Core, Connector, Failure, Protocol}
use opcua_light_server.Connector.Base.{
  remove_connection, disconnect_and_cleanup, connection_failure,
}
use opcua_light_server.Connector.Base.Ownership.{pending}

module _ {P X V : Type 0} where
  -- A failed connection without timers, of a running connector, is left with a pending
  -- reconnection timer of its own.
  failure_schedules :
      (now now' : String → ℕ) (err : Failure) (m : Managed P X) (c : Core V)
      → m.polling_timer ≡ none
      → m.reconnect_timer ≡ none
      → c.running ≡ true
      → let r = connection_failure now now' err m c in
        (r.0.reconnect_timer ≡ some c.world.next_timer) × (pending r.1 c.world.next_timer ≡ true)
  unfolding connection_failure
  failure_schedules now now' err m c e f h =
      let t = c.world.next_timer in ground (arith, has_timer-append t t c.world.timers)

  module _ (p : Protocol P X V) (m : Managed P X) (c : Core V) where
    cleaned_polling : (disconnect_and_cleanup p m c).0.polling_timer ≡ none
    unfolding disconnect_and_cleanup
    cleaned_polling = ground arith

    cleaned_reconnect : (disconnect_and_cleanup p m c).0.reconnect_timer ≡ none
    unfolding disconnect_and_cleanup
    cleaned_reconnect = ground arith

    cleaned_running : (disconnect_and_cleanup p m c).1.running ≡ c.running
    unfolding disconnect_and_cleanup
    cleaned_running = ground arith

  -- A connection that is removed, from a running connector, during its handshake, and whose handshake
  -- fails afterwards: the connector has no connection of that id, and yet its object is left with a
  -- pending reconnection timer.
  pub connection_failure-remove_connection :
      (p : Protocol P X V) (now now' : String → ℕ) (err : Failure) (id : String) (m : Managed P X)
      (s : Connector P X V)
      → lookup id s.connections ≡ some m
      → s.core.running ≡ true
      → let s' = (remove_connection p id s).0 in
        let m' = (disconnect_and_cleanup p m s.core).0 in
        let t = s'.core.world.next_timer in
        let r = connection_failure now now' err m' s'.core in
        (lookup id s'.connections ≡ none) × (r.0.reconnect_timer ≡ some t) × (pending r.1 t ≡ true)
  unfolding remove_connection
  connection_failure-remove_connection p now now' err id m s e h =
      let r = disconnect_and_cleanup p m s.core in
      let late =
        failure_schedules now now' err r.0 r.1 (cleaned_polling p m s.core)
          (cleaned_reconnect p m s.core) (cleaned_running p m s.core ∙ h) in
      rw (e, remove_connection)
        (lookup-delete id id s.connections ∙ rw (eq_refl id) refl, late.0, late.1)
