-- ===== src/Ipc/Tests.antt =====
-- src/connectors/core/ipc-bridge.ts on a running manager and an empty cache.
use opcua_light_server.Prelude.{
  ℕ, ◌≡◌, refl, true, false, none, some, List, [], ◌∷◌, ◌++◌, map, keep, All, is_some, is_empty,
  if◌then◌else◌, String, Dict, lookup, codes,
}
use opcua_light_server.Connector.Types.{ValueUpdate, good}
use opcua_light_server.Process.Manager.{Manager, Env, init, running}
use opcua_light_server.Ipc.{IpcBridge, handle_value_updates, resolve}
use opcua_light_server.Ipc.Resolution.{
  IsExtended, is_known, current_map, handle_value_updates-messages, handle_value_updates-stale,
}

abbrev at_noon : Env
at_noon = record { now = 1000; hostname = codes "host"; win32 = false; status_file = none }

abbrev live : Manager
live = record init { state = running; process = some 0 }

abbrev one_node : Dict String
one_node = ("u1", "ns=1;s=tank") ∷ []

abbrev two_updates : List (ValueUpdate ℕ)
two_updates =
    record { node_id = "u1"; value = some 5; quality = good; timestamp = 1 }
    ∷ record { node_id = "u2"; value = some 6; quality = good; timestamp = 1 }
    ∷ []

abbrev stale : IpcBridge ℕ
stale = record { uuid_to_opcua_id = some []; messages = []; logged = [] }

nothing-IsExtended : IsExtended [] one_node
unfolding lookup
nothing-IsExtended k e = cc

handle_value_updates-messages_example :
    let s' = handle_value_updates at_noon (some true) live one_node two_updates stale in
    let kept = keep (is_known one_node) two_updates in
    let sent = map (resolve (current_map one_node s'.uuid_to_opcua_id)) kept in
    (s'.messages ≡ (if is_empty kept then [] else [] ++ sent ∷ []))
    × All (λ r. is_some r.node_id ≡ true) sent
handle_value_updates-messages_example =
    handle_value_updates-messages at_noon live one_node two_updates stale refl refl
      nothing-IsExtended

-- The first node is cached and gone, the second is new.
abbrev gone : IpcBridge ℕ
gone = record stale { uuid_to_opcua_id = some one_node }

abbrev new_node : Dict String
new_node = ("u2", "ns=1;s=pump") ∷ []

abbrev update_of : String → ValueUpdate ℕ
update_of id = record { node_id = id; value = some 5; quality = good; timestamp = 1 }

handle_value_updates-stale_example :
    let r = resolve new_node (update_of "u1") in
    ((handle_value_updates at_noon
        (some true)
        live
        new_node
        (update_of "u1" ∷ update_of "u2" ∷ [])
        gone).messages
      ≡ [] ++ (r ∷ resolve new_node (update_of "u2") ∷ []) ∷ [])
    × (r.node_id ≡ none)
unfolding lookup
handle_value_updates-stale_example =
    handle_value_updates-stale at_noon live new_node one_node (update_of "u1") (update_of "u2") gone
      refl refl refl refl refl refl refl
