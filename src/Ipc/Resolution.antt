-- ===== src/Ipc/Resolution.antt =====
-- src/connectors/core/ipc-bridge.ts: which updates reach the runtime, and under which node ids.
use opcua_light_server.Prelude.{
  ◌≡◌, refl, Bool, true, false, Option, none, some, List, [], ◌∷◌, ◌++◌, map, keep, All, arith, has,
  is_some, String, Dict, if◌then◌else◌, is_empty, if-rule,
}
use opcua_light_server.Connector.Types.{ValueUpdate}
use opcua_light_server.Process.Manager.{Manager, Env, running}
use opcua_light_server.Process.Manager.Status.{get_status-state, write_to_stdin-live}
use opcua_light_server.Ipc.{
  BridgeLog, IpcBridge, filter_known, resolve, handle_value_updates, cached_map,
}

-- Every node of `d` is one of `d'`.
abbrev pub IsExtended : Dict String → Dict String → Type 0
IsExtended d d' = (k : String) → has k d ≡ true → has k d' ≡ true

-- What the bridge works with: the cached map, or the one that would be built now.
abbrev pub current_map : Dict String → Option (Dict String) → Dict String
current_map built none = built
current_map built (some d) = d

cached_map-current :
    (built : Dict String) (o : Option (Dict String)) → (cached_map built o).0 ≡ current_map built o
unfolding cached_map
cached_map-current built none = refl
cached_map-current built (some d) = refl

module _ {V : Type 0} where
  abbrev pub is_known : Dict String → ValueUpdate V → Bool
  is_known d u = has u.node_id d

  filter_known-kept :
      (built d : Dict String) (us : List (ValueUpdate V))
      → IsExtended d built
      → (filter_known built d us).2 ≡ keep (is_known built) us
  unfolding filter_known
  filter_known-kept built d [] h = refl
  filter_known-kept built d (u ∷ us) h = ground (
    arith,
    h u.node_id,
    filter_known-kept built d us h,
    filter_known-kept built built us (λ k e. e),
  )

  filter_known-IsExtended :
      (built d : Dict String) (us : List (ValueUpdate V))
      → IsExtended d built
      → IsExtended d (filter_known built d us).0
  unfolding filter_known
  filter_known-IsExtended built d [] h k e = e
  filter_known-IsExtended built d (u ∷ us) h k e = ground (
    arith,
    e,
    h k,
    filter_known-IsExtended built d us h k,
    filter_known-IsExtended built built us (λ j f. f) k,
  )

  -- Every kept update has its node in the map that is left.
  abbrev IsResolving : Dict String × List BridgeLog × List (ValueUpdate V) → Type 0
  IsResolving r = All (λ u. is_known r.0 u ≡ true) r.2

  filter_known-IsResolving :
      (built d : Dict String) (us : List (ValueUpdate V))
      → IsExtended d built
      → IsResolving (filter_known built d us)
  unfolding filter_known
  filter_known-IsResolving built d [] h = tt
  filter_known-IsResolving built d (u ∷ us) h =
      let rest = filter_known-IsResolving built built us (λ j f. f) in
      if-rule IsResolving (has u.node_id d)
        (λ e.
          (filter_known-IsExtended built d us h u.node_id e, filter_known-IsResolving built d us h))
        (λ e.
          if-rule IsResolving (has u.node_id built)
            (λ f. (filter_known-IsExtended built built us (λ j g. g) u.node_id f, rest))
            (λ f. rest))

  resolve-known :
      (d : Dict String) (us : List (ValueUpdate V))
      → All (λ u. is_known d u ≡ true) us
      → All (λ r. is_some r.node_id ≡ true) (map (resolve d) us)
  unfolding resolve
  resolve-known d [] h = tt
  resolve-known d (u ∷ us) h = (h.0, resolve-known d us h.1)

  handle_value_updates-map :
      (env : Env) (m : Manager) (built : Dict String) (us : List (ValueUpdate V)) (s : IpcBridge V)
      → m.state ≡ running
      → is_some m.process ≡ true
      → (handle_value_updates env (some true) m built us s).uuid_to_opcua_id
        ≡ some (filter_known built (cached_map built s.uuid_to_opcua_id).0 us).0
  unfolding handle_value_updates
  handle_value_updates-map env m built us s r p =
      ground (arith, get_status-state env m, write_to_stdin-live true m r p)

  -- While the runtime runs and its stdin takes what is written, and if no node of the cached map has
  -- gone from the address space: the updates of the nodes that the address space has now, and no
  -- others, are written as one message, in order, resolved by the map that is then cached, in which
  -- each of them has a node id; nothing is written if there are none.
  pub handle_value_updates-messages :
      (env : Env) (m : Manager) (built : Dict String) (us : List (ValueUpdate V)) (s : IpcBridge V)
      → m.state ≡ running
      → is_some m.process ≡ true
      → IsExtended (current_map built s.uuid_to_opcua_id) built
      → let s' = handle_value_updates env (some true) m built us s in
        let kept = keep (is_known built) us in
        let sent = map (resolve (current_map built s'.uuid_to_opcua_id)) kept in
        (s'.messages ≡ (if is_empty kept then s.messages else s.messages ++ sent ∷ []))
        × All (λ r. is_some r.node_id ≡ true) sent
  unfolding handle_value_updates
  handle_value_updates-messages env m built us s r p h =
      let d = (cached_map built s.uuid_to_opcua_id).0 in
      let live : IsExtended d built = rw cached_map-current h in
      let kept = filter_known-kept built d us live in
      (
        ground (arith, get_status-state env m, write_to_stdin-live true m r p, kept),
        rw (← kept, handle_value_updates-map env m built us s r p)
            (resolve-known (filter_known built d us).0 (filter_known built d us).2
              (filter_known-IsResolving built d us live)),
      )

  -- A cached map that lacks the node of the second of two updates and has that of the first, which
  -- has gone from the address space: both are written, and the first without a node id.
  pub handle_value_updates-stale :
      (env : Env) (m : Manager) (built d : Dict String) (u v : ValueUpdate V) (s : IpcBridge V)
      → m.state ≡ running
      → is_some m.process ≡ true
      → s.uuid_to_opcua_id ≡ some d
      → is_known d u ≡ true
      → is_known built u ≡ false
      → is_known d v ≡ false
      → is_known built v ≡ true
      → let r = resolve built u in
        ((handle_value_updates env (some true) m built (u ∷ v ∷ []) s).messages
          ≡ s.messages ++ (r ∷ resolve built v ∷ []) ∷ [])
        × (r.node_id ≡ none)
  unfolding handle_value_updates filter_known cached_map
  handle_value_updates-stale env m built d u v s r p e a b a' b' = (
    ground (arith, get_status-state env m, write_to_stdin-live true m r p, e),
    unfold resolve in ground arith,
  )
