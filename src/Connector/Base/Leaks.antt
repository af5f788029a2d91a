-- ===== src/Connector/Base/Leaks.antt =====
-- src/connectors/core/base-connector.ts: which timers a stop leaves after any calls and events.
use opcua_light_server.Prelude.{
  ℕ, zero, suc, Bool, ◌≡◌, ap, true, false, ◌++◌, List, [], ◌∷◌, arith, eq_nil_of_has_timer,
  if-rule,
}
use opcua_light_server.Connector.Types.{Managed, Core, Connector, Protocol, KeepsTimers}
use opcua_light_server.Connector.Base.{
  on_value_update, stop, connection_success, connection_failure,
}
use opcua_light_server.Connector.Base.Ownership.{
  pending, IsTidy, connection_success-IsTidy, connection_failure-IsTidy,
}
use opcua_light_server.Connector.Base.Held.{cleanup_all-held}
use opcua_light_server.Connector.Base.Calls.{
  Call, adds, updates, removes, maps, unmaps, registers, starts, stops, succeeds, fails, fires,
  succeeds_late, fails_late, fires_late, fire, at_removed, late, taken, Life, step, run, init, kept,
  IsOwned, at_connection-IsOwned,
}
use opcua_light_server.Connector.Base.Owned.{
  add_connection-IsOwned, update_connection-IsOwned, remove_connection-IsOwned, start-IsOwned,
  stop-IsOwned, remove_mapping-IsOwned, add_mapping-IsOwned, fire-IsTidy,
}

module _ {P X V : Type 0} where
  -- Every pending timer is held by a connection or by the object of a removed one.
  abbrev pub IsCounted : Life P X V → Type 0
  IsCounted s = IsOwned (kept s.removed) s.connector

  at_removed-kept :
      (n : ℕ) (f : Managed P X → Core V → Managed P X × Core V) (ms : List (Managed P X))
      (c : Core V) (t : ℕ)
      → ((m : Managed P X) → IsTidy m c (f m c))
      → pending (at_removed n f ms c).1 t ≡ true
      → (pending c t ≡ true → kept ms t ≡ true → kept (at_removed n f ms c).0 t ≡ true)
        × (pending c t ≡ false → kept (at_removed n f ms c).0 t ≡ true)
  unfolding at_removed
  at_removed-kept n f [] c t a h = ((λ e k. k), (λ e. ground (arith, h, e)))
  at_removed-kept zero f (m ∷ ms) c t a h =
      ((λ e k. ground (arith, a m t h, k)), (λ e. ground (arith, a m t h, e)))
  at_removed-kept (suc n) f (m ∷ ms) c t a h =
      let r = at_removed-kept n f ms c t a h in
      ((λ e k. ground (arith, r.0 e, k)), (λ e. ground (arith, r.1 e)))

  late-IsCounted :
      (n : ℕ) (f : Managed P X → Core V → Managed P X × Core V) (s : Life P X V)
      → ((m : Managed P X) → IsTidy m s.connector.core (f m s.connector.core))
      → IsCounted s
      → IsCounted (late n f s)
  unfolding late
  late-IsCounted n f s a v = record {
    unique = v.unique;
    owned = λ t h. ground (arith, v.owned t, at_removed-kept n f s.removed s.connector.core t a h);
  }

  module _ (p : Protocol P X V) (k : KeepsTimers p) where
    -- The object that is taken holds no timer.
    more-IsOwned :
        (ms ns : List (Managed P X)) (s : Connector P X V)
        → IsOwned (kept ms) s
        → IsOwned (kept (ns ++ ms)) s
    more-IsOwned ms [] s v = v
    more-IsOwned ms (n ∷ ns) s v =
        let r = more-IsOwned ms ns s v in
        record { unique = r.unique; owned = λ t h. ground (arith, r.owned t h) }

    -- Every call, also one that throws, and every event at a connection or at the object of a
    -- removed one keeps the ids distinct and every pending timer held, if the protocol leaves the
    -- timers alone.
    pub step-IsOwned : (call : Call P) (s : Life P X V) → IsCounted s → IsCounted (step p call s)
    unfolding step on_value_update
    step-IsOwned (adds config) s v =
        add_connection-IsOwned p k (kept s.removed) config s.connector v
    step-IsOwned (updates config) s v =
        update_connection-IsOwned p k (kept s.removed) config s.connector v
    step-IsOwned (removes id) s v =
        more-IsOwned s.removed (taken p id s.connector) _
          (remove_connection-IsOwned p k (kept s.removed) id s.connector v)
    step-IsOwned (maps mapping) s v = add_mapping-IsOwned p k (kept s.removed) mapping s.connector v
    step-IsOwned (unmaps id) s v = remove_mapping-IsOwned p k (kept s.removed) id s.connector v
    step-IsOwned registers s v = record { unique = v.unique; owned = v.owned }
    step-IsOwned starts s v = start-IsOwned p k (kept s.removed) s.connector v
    step-IsOwned stops s v = stop-IsOwned p k (kept s.removed) s.connector v
    step-IsOwned (succeeds id now now') s v =
        at_connection-IsOwned (kept s.removed) id (connection_success now now') s.connector
          (λ m. connection_success-IsTidy now now' m s.connector.core) v
    step-IsOwned (fails id now now' err) s v =
        at_connection-IsOwned (kept s.removed) id (connection_failure now now' err) s.connector
          (λ m. connection_failure-IsTidy now now' err m s.connector.core) v
    step-IsOwned (fires id t) s v =
        at_connection-IsOwned (kept s.removed) id (fire p t) s.connector
          (λ m. fire-IsTidy p k (kept s.removed) t m s.connector.core) v
    step-IsOwned (succeeds_late n now now') s v =
        late-IsCounted n (connection_success now now') s
          (λ m. connection_success-IsTidy now now' m s.connector.core) v
    step-IsOwned (fails_late n now now' err) s v =
        late-IsCounted n (connection_failure now now' err) s
          (λ m. connection_failure-IsTidy now now' err m s.connector.core) v
    step-IsOwned (fires_late n t) s v =
        late-IsCounted n (fire p t) s (λ m. fire-IsTidy p k (kept s.removed) t m s.connector.core) v

    run-IsOwned : (calls : List (Call P)) (s : Life P X V) → IsCounted s → IsCounted (run p calls s)
    unfolding run
    run-IsOwned [] s v = v
    run-IsOwned (call ∷ calls) s v = run-IsOwned calls (step p call s) (step-IsOwned call s v)

    stop-kept :
        (others : ℕ → Bool) (s : Connector P X V)
        → IsOwned others s
        → s.core.running ≡ true
        → (t : ℕ) → pending (stop p s).core t ≡ true
        → others t ≡ true
    unfolding stop
    stop-kept others s v e =
        let c = record s.core { running = false } in
        if-rule (λ (r : Connector P X V). (t : ℕ) → pending r.core t ≡ true → others t ≡ true)
          s.core.running
          (λ _ t h. ground (arith, cleanup_all-held p k s.connections c t, h, v.owned t)) (λ f. cc)

    init-IsOwned : IsCounted (init {P = P} {X = X} {V = V})
    unfolding init
    init-IsOwned = record { unique = tt; owned = λ t h. cc }

    nothing_pending :
        (ms : List (Managed P X)) (c : Core V)
        → ((t : ℕ) → pending c t ≡ true → kept ms t ≡ true)
        → ms ≡ []
        → c.world.timers ≡ []
    nothing_pending ms c h e =
        eq_nil_of_has_timer c.world.timers (λ t. ground (arith, h t, ap (λ ns. kept ns t) e))

    -- After any sequence of calls on a new connector, of events at its connections and of events at
    -- the objects of removed connections, which the event loop still has: stopping it while it runs
    -- leaves no pending timer but those that objects of removed connections hold, and none at all
    -- if no connection was removed, if the protocol leaves the timers alone.
    pub stop-run-timers :
        (calls : List (Call P))
        → (run p calls init).connector.core.running ≡ true
        → let s = run p calls init in
          let after = (stop p s.connector).core in
          ((t : ℕ) → pending after t ≡ true → kept s.removed t ≡ true)
          × (s.removed ≡ [] → after.world.timers ≡ [])
    stop-run-timers calls e =
        let v = run-IsOwned calls init init-IsOwned in
        let h = stop-kept _ _ v e in
        (h, nothing_pending (run p calls init).removed (stop p (run p calls init).connector).core h)
