-- ===== src/Connector/Base/Ownership.antt =====
-- src/connectors/core/base-connector.ts: which timers are pending, connection by connection.
use opcua_light_server.Prelude.{
  ℕ, ◌≡◌, refl, ap, Bool, true, false, ◌||◌, ◌⊎◌, inl, inr, Option, none, some, arith, ◌==◌, String,
  has_timer, has_timer-append, has_timer-clear_timers, Option-cases, if◌then◌else◌,
}
use opcua_light_server.Connector.Types.{
  Managed, Core, Protocol, KeepsTimers, Quality, Failure, bad, good, connected, disconnected,
  connection_failed, connected_to,
}
use opcua_light_server.Connector.Timers.{
  stop_polling, clear_reconnect, schedule_reconnect, start_polling, clear, log,
}
use opcua_light_server.Connector.Quality.{emit_quality_update}
use opcua_light_server.Connector.Base.{
  failure_message, was_connected, handle_connection_error, initiate_if, disconnect_and_cleanup,
  reconnect, connection_success, connection_failure,
}

abbrev pub is_handle : Option ℕ → ℕ → Bool
is_handle none t = false
is_handle (some u) t = u == t

-- A connection holds a timer as its polling or its reconnection timer.
abbrev pub holds : {P X : Type 0} → Managed P X → ℕ → Bool
holds m t = is_handle m.polling_timer t || is_handle m.reconnect_timer t

abbrev pub pending : {V : Type 0} → Core V → ℕ → Bool
pending c t = has_timer t c.world.timers

module _ {P X V : Type 0} where
  -- A step of one connection leaks no timer: what is pending behind it is held by the connection,
  -- or was pending before and not held by it.
  abbrev pub IsTidy : Managed P X → Core V → Managed P X × Core V → Type 0
  IsTidy m c r =
      (t : ℕ)
      → pending r.1 t ≡ true
      → (holds r.0 t ≡ true) ⊎ ((pending c t ≡ true) × (holds m t ≡ false))

  pub IsTidy-trans :
      (m : Managed P X) (c : Core V) (r s : Managed P X × Core V)
      → IsTidy m c r
      → IsTidy r.0 r.1 s
      → IsTidy m c s
  IsTidy-trans m c r s a b t h = ground (arith, b t h, a t)

  stop_polling-IsTidy : (m : Managed P X) (c : Core V) → IsTidy m c (stop_polling m c)
  unfolding stop_polling
  stop_polling-IsTidy m c t h = elim (Option-cases m.polling_timer) [
    | inl e ↦ ground arith
    | inr (u, e) ↦ ground (arith, has_timer-clear_timers u t c.world.timers)
  ]

  clear_reconnect-IsTidy : (m : Managed P X) (c : Core V) → IsTidy m c (clear_reconnect m c)
  unfolding clear_reconnect
  clear_reconnect-IsTidy m c t h = elim (Option-cases m.reconnect_timer) [
    | inl e ↦ ground arith
    | inr (u, e) ↦ ground (arith, has_timer-clear_timers u t c.world.timers)
  ]

  schedule_reconnect-IsTidy : (m : Managed P X) (c : Core V) → IsTidy m c (schedule_reconnect m c)
  unfolding schedule_reconnect
  schedule_reconnect-IsTidy m c t h = elim (Option-cases m.reconnect_timer) [
    | inl e ↦ ground (arith, has_timer-append c.world.next_timer t c.world.timers)
    | inr (u, e) ↦ ground (
      arith,
      has_timer-append c.world.next_timer t (clear u c).world.timers,
      has_timer-clear_timers u t c.world.timers,
    )
  ]

  start_polling-IsTidy : (m : Managed P X) (c : Core V) → IsTidy m c (start_polling m c)
  unfolding start_polling
  start_polling-IsTidy m c t h =
      ground (arith, has_timer-append c.world.next_timer t c.world.timers)

  emit_quality_update-timers :
      (q : Quality) (now now' : String → ℕ) (m : Managed P X) (c : Core V)
      → (emit_quality_update q now now' m c).world.timers ≡ c.world.timers
  unfolding emit_quality_update
  emit_quality_update-timers q now now' m c = ground arith

  -- A step that leaves the pending timers alone, before one that is tidy.
  pub IsTidy-same :
      (m m' : Managed P X) (c c' : Core V) (r : Managed P X × Core V)
      → c'.world.timers ≡ c.world.timers
      → m'.polling_timer ≡ m.polling_timer
      → m'.reconnect_timer ≡ m.reconnect_timer
      → IsTidy m' c' r
      → IsTidy m c r
  IsTidy-same m m' c c' r e p q a t h = ground (arith, a t h, ap (has_timer t) e)

  schedule_if-IsTidy :
      (b : Bool) (m : Managed P X) (c : Core V)
      → IsTidy m c (if b then schedule_reconnect m c else (m, c))
  schedule_if-IsTidy true m c t h = schedule_reconnect-IsTidy m c t h
  schedule_if-IsTidy false m c t h = ground arith

  pub handle_connection_error-IsTidy :
      (now now' : String → ℕ) (err : Failure) (m : Managed P X) (c : Core V)
      → IsTidy m c (handle_connection_error now now' err m c)
  unfolding handle_connection_error
  handle_connection_error-IsTidy now now' err m c =
      let message = failure_message err in
      let m₁ : Managed P X = record m {
        state = was_connected m.state;
        error_message = some message;
      } in
      let c₁ = log (connection_failed m.config.name message) c in
      let r = stop_polling m₁ c₁ in
      let c₃ = emit_quality_update bad now now' r.0 r.1 in
      let final = handle_connection_error now now' err m c in
      IsTidy-same m m₁ c c₁ final refl refl refl (
        IsTidy-trans m₁ c₁ r final (stop_polling-IsTidy m₁ c₁) (
          IsTidy-same r.0 r.0 r.1 c₃ final (emit_quality_update-timers bad now now' r.0 r.1) refl
            refl (schedule_if-IsTidy c₃.running r.0 c₃)))

  pub connection_failure-IsTidy :
      (now now' : String → ℕ) (err : Failure) (m : Managed P X) (c : Core V)
      → IsTidy m c (connection_failure now now' err m c)
  unfolding connection_failure
  connection_failure-IsTidy now now' err m c =
      IsTidy-same m (record m { connecting = false }) c c (connection_failure now now' err m c) refl
        refl refl (handle_connection_error-IsTidy now now' err (record m { connecting = false }) c)

  pub connection_success-IsTidy :
      (now now' : String → ℕ) (m : Managed P X) (c : Core V)
      → IsTidy m c (connection_success now now' m c)
  unfolding connection_success
  connection_success-IsTidy now now' m c t h =
      let m₁ : Managed P X = record m {
        connecting = false;
        state = connected;
        error_message = none;
      } in
      let c₁ = log (connected_to m.config.name) c in
      let c₂ = emit_quality_update good now now' m₁ c₁ in
      ground (
        arith,
        start_polling-IsTidy m₁ c₂ t,
        ap (has_timer t) (emit_quality_update-timers good now now' m₁ c₁),
      )

  module _ (p : Protocol P X V) (k : KeepsTimers p) where
    pub initiate_if-same :
        (b : Bool) (m : Managed P X) (c : Core V) (t : ℕ)
        → (pending (initiate_if p b m c).1 t ≡ pending c t)
          × (holds (initiate_if p b m c).0 t ≡ holds m t)
    unfolding initiate_if
    initiate_if-same false m c t = (refl, refl)
    initiate_if-same true m c t = ground (
      arith,
      ap (has_timer t) (k.initiate_timers m c.world),
      k.initiate_polling m c.world,
      k.initiate_reconnect m c.world,
    )

    pub initiate_if-IsTidy :
        (b : Bool) (m : Managed P X) (c : Core V) → IsTidy m c (initiate_if p b m c)
    unfolding initiate_if
    initiate_if-IsTidy false m c t h = ground arith
    initiate_if-IsTidy true m c t h = ground (arith, initiate_if-same true m c t)

    pub disconnect_and_cleanup-IsTidy :
        (m : Managed P X) (c : Core V) → IsTidy m c (disconnect_and_cleanup p m c)
    unfolding disconnect_and_cleanup
    disconnect_and_cleanup-IsTidy m c =
        let r = stop_polling m c in
        let r' = clear_reconnect r.0 r.1 in
        IsTidy-trans m c r' (disconnect_and_cleanup p m c)
          (IsTidy-trans m c r r' (stop_polling-IsTidy m c) (clear_reconnect-IsTidy r.0 r.1))
          (λ t h. ground (arith, ap (has_timer t) (k.close_timers r'.0 r'.1.world)))

    pub disconnect_and_cleanup-holds :
        (m : Managed P X) (c : Core V) (t : ℕ) → holds (disconnect_and_cleanup p m c).0 t ≡ false
    unfolding disconnect_and_cleanup
    disconnect_and_cleanup-holds m c t = ground arith

    -- The fired timer is the one that the connection holds.
    pub reconnect-IsTidy :
        (t : ℕ) (m : Managed P X) (c : Core V)
        → m.reconnect_timer ≡ some t
        → IsTidy m c (reconnect p t m c)
    unfolding reconnect
    reconnect-IsTidy t m c e u h =
        let m₁ = record m { reconnect_timer = none } in
        let w = (clear t c).world in
        let m₂ = record m₁ { client = none; state = disconnected } in
        let w' = p.close_client m₁ w in
        ground (
          arith,
          has_timer-clear_timers t u c.world.timers,
          ap (has_timer u) (k.close_timers m₁ w),
          ap (has_timer u) (k.initiate_timers m₂ w'),
          k.initiate_polling m₂ w',
          k.initiate_reconnect m₂ w',
        )
