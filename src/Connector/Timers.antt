-- ===== src/Connector/Timers.antt =====
-- src/connectors/core/base-connector.ts: the polling and the reconnection timer of a connection.
use opcua_light_server.Prelude.{ℕ, suc, none, some, [], ◌∷◌, ◌++◌, clear_timers}
use opcua_light_server.Connector.Types.{Managed, LogLine, reconnecting, Core}

module _ {V : Type 0} where
  abbrev pub log : LogLine → Core V → Core V
  log line c = record c { world = record c.world { logged = c.world.logged ++ line ∷ [] } }

  -- `clearTimeout` and `clearInterval`.
  abbrev pub clear : ℕ → Core V → Core V
  clear t c = record c { world = record c.world { timers = clear_timers t c.world.timers } }

  -- `setTimeout` and `setInterval`: the new handle is `next_timer`.
  abbrev pub set_timer : Core V → Core V
  set_timer c = record c {
    world = record c.world {
      timers = c.world.timers ++ c.world.next_timer ∷ [];
      next_timer = suc c.world.next_timer;
    };
  }

module _ {P X V : Type 0} where
  unfoldable pub stop_polling : Managed P X → Core V → Managed P X × Core V
  stop_polling m c = elim m.polling_timer [
    | none ↦ (m, c)
    | some t ↦ (record m { polling_timer = none }, clear t c)
  ]

  -- `if (managed.reconnectTimer) { clearTimeout(…); managed.reconnectTimer = null; }`
  unfoldable pub clear_reconnect : Managed P X → Core V → Managed P X × Core V
  clear_reconnect m c = elim m.reconnect_timer [
    | none ↦ (m, c)
    | some t ↦ (record m { reconnect_timer = none }, clear t c)
  ]

  unfoldable pub schedule_reconnect : Managed P X → Core V → Managed P X × Core V
  unfolding clear_reconnect
  schedule_reconnect m c =
      let (m', c') = clear_reconnect m c in
      (
        record m' { reconnect_timer = some c'.world.next_timer },
        set_timer (log (reconnecting m.config.name m.config.reconnect_interval_ms) c'),
      )

  -- The guard and the `setInterval` of `startPolling`.
  unfoldable pub start_polling : Managed P X → Core V → Managed P X × Core V
  start_polling m c = elim m.polling_timer [
    | some t ↦ (m, c)
    | none ↦ (record m { polling_timer = some c.world.next_timer }, set_timer c)
  ]
