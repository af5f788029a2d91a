-- ===== src/Connector/Base/Loss.antt =====
-- src/connectors/core/base-connector.ts: what a lost connection leaves.
use opcua_light_server.Prelude.{
  ℕ, String, ◌≡◌, refl, true, false, none, some, All, arith, values, lookup, ◌⊎◌, has_timer-append,
  clear_timers, Option-cases, inl, inr,
}
use opcua_light_server.Connector.Types.{
  ConnectionState, connected, disconnected, error, Managed, Core, Failure, bad,
}
use opcua_light_server.Connector.Quality.{requalify_all}
use opcua_light_server.Connector.Quality.Bad.{is_bad, requalify_all-is_bad}
use opcua_light_server.Connector.Base.{handle_connection_error, was_connected, failure_message}
use opcua_light_server.Connector.Base.Ownership.{pending}

-- The state behind a failure, by the state before it.
abbrev pub IsLostState : ConnectionState → ConnectionState → Type 0
IsLostState connected s = s ≡ disconnected
IsLostState disconnected s = s ≡ error
IsLostState error s = s ≡ error

is_lost_state : (s : ConnectionState) → IsLostState s (was_connected s)
is_lost_state connected = refl
is_lost_state disconnected = refl
is_lost_state error = refl

-- What a failure with `err` makes of connection `m` of a connector in the state `c`.
pub record IsLost {P X V : Type 0} (err : Failure) (m m' : Managed P X) (c c' : Core V)
    : Type 0 where
  pub state : IsLostState m.state m'.state
  pub message : m'.error_message ≡ some (failure_message err)
  pub polling : m'.polling_timer ≡ none
  pub values_bad : All (λ mp. is_bad (lookup mp.id c'.current_values) ≡ true) (values m.mappings)
  pub retries :
      (c.running ≡ false)
      ⊎ ((m'.reconnect_timer ≡ some c.world.next_timer) × (pending c' c.world.next_timer ≡ true))

module _ {P X V : Type 0} (now now' : String → ℕ) (err : Failure) (m : Managed P X)
    (c : Core V) where
  handle_connection_error-current_values :
      (handle_connection_error now now' err m c).1.current_values
      ≡ requalify_all bad now m.config.id (values m.mappings) c.current_values
  unfolding handle_connection_error
  handle_connection_error-current_values = ground arith

  handle_connection_error-retries :
      let r = handle_connection_error now now' err m c in
      (c.running ≡ false)
      ⊎ ((r.0.reconnect_timer ≡ some c.world.next_timer) × (pending r.1 c.world.next_timer ≡ true))
  unfolding handle_connection_error
  handle_connection_error-retries =
      let t = c.world.next_timer in
      let ts = c.world.timers in
      elim (Option-cases m.polling_timer) [
        | inl e ↦ elim (Option-cases m.reconnect_timer) [
          | inl f ↦ ground (arith, e, f, has_timer-append t t ts)
          | inr (u, f) ↦ ground (arith, e, f, has_timer-append t t (clear_timers u ts))
        ]
        | inr (v, e) ↦ elim (Option-cases m.reconnect_timer) [
          | inl f ↦ ground (arith, e, f, has_timer-append t t (clear_timers v ts))
          | inr (u, f) ↦
              ground (arith, e, f, has_timer-append t t (clear_timers u (clear_timers v ts)))
        ]
      ]

  was_state : IsLostState m.state (handle_connection_error now now' err m c).0.state
  unfolding handle_connection_error
  was_state =
      let e : (handle_connection_error now now' err m c).0.state ≡ was_connected m.state =
        ground arith in
      rw e (is_lost_state m.state)

  -- After the failure of a connection: the state is `disconnected` if it was `connected` and
  -- `error` otherwise, the message of the failure is kept, it is not polled, every one of its
  -- mappings has a cached value of quality `bad`, and if the connector runs then the connection
  -- has a new pending reconnection timer.
  pub handle_connection_error-IsLost :
      let r = handle_connection_error now now' err m c in IsLost err m r.0 c r.1
  unfolding handle_connection_error
  handle_connection_error-IsLost = record {
    state = was_state;
    message = ground arith;
    polling = ground arith;
    values_bad =
        rw handle_connection_error-current_values
          (requalify_all-is_bad now m.config.id (values m.mappings) c.current_values);
    retries = handle_connection_error-retries;
  }
