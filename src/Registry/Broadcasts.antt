-- ===== src/Registry/Broadcasts.antt =====
-- src/connectors/core/connector-registry.ts: which statuses are broadcast.
use mathlib.Core.List.{append-nil, append_assoc}
use opcua_light_server.Prelude.{
  ◌≡◌, refl, sym, ap, ◌∙◌, Bool, true, false, List, [], ◌∷◌, ◌++◌, map, arith, if◌then◌else◌, Text,
  text_eq, text_eq_iff, Dict, Bool-cases, inl, inr,
}
use opcua_light_server.Connector.Types.{ConnectionStatus}
use opcua_light_server.Registry.{
  ConnectorApi, ConnectorRegistry, connector_status, gather, check_and_broadcast_status, stop_all,
  each,
}

gather-each :
    {S B : Type 0} (f : S → List B) (g : S → S) (d : Dict S)
    → gather f (each g d) ≡ gather (λ c. f (g c)) d
unfolding gather each
gather-each f g [] = refl
gather-each f g ((type, c) ∷ d) = ap (λ bs. f (g c) ++ bs) (gather-each f g d)

module _ (stringify : List ConnectionStatus → Text) where
  -- The statuses whose text is not that of the one before, the first of which has the text `t`.
  abbrev pub changes : Text → List (List ConnectionStatus) → List (List ConnectionStatus)
  changes t [] = []
  changes t (s ∷ rest) =
      if text_eq (stringify s) t then changes (stringify s) rest else s ∷ changes (stringify s) rest

module _ {S V M : Type 0} (api : ConnectorApi S V) (stringify : List ConnectionStatus → Text) where
  -- The connectors as each firing of the polling timer finds them.
  pub polls : List (Dict S) → ConnectorRegistry S V M → ConnectorRegistry S V M
  polls [] r = r
  polls (cs ∷ rest) r =
      polls rest (check_and_broadcast_status api stringify (record r { connectors = cs }))

  module _ (cs : Dict S) (r : ConnectorRegistry S V M) where
    polled : ConnectorRegistry S V M
    polled = check_and_broadcast_status api stringify (record r { connectors = cs })

    abbrev is_unchanged : Bool
    is_unchanged = text_eq (stringify (gather api.get_status cs)) r.last_status_snapshot

    polled-snapshot : polled.last_status_snapshot ≡ stringify (gather api.get_status cs)
    unfolding polled check_and_broadcast_status
    polled-snapshot =
        ground (arith, text_eq_iff (stringify (gather api.get_status cs)) r.last_status_snapshot)

    polled-sse_hub : polled.sse_hub ≡ r.sse_hub
    unfolding polled check_and_broadcast_status
    polled-sse_hub = ground arith

    polled-unchanged : is_unchanged ≡ true → polled.broadcasts ≡ r.broadcasts
    unfolding polled check_and_broadcast_status
    polled-unchanged e = ground arith

    polled-changed :
        r.sse_hub ≡ true
        → is_unchanged ≡ false
        → polled.broadcasts ≡ r.broadcasts ++ connector_status (gather api.get_status cs) ∷ []
    unfolding polled check_and_broadcast_status
    polled-changed h e = ground arith

  -- With a hub, the firings of the polling timer broadcast exactly the statuses whose JSON differs
  -- from the JSON at the firing before, in order; the first is compared with the snapshot.
  pub polls-broadcasts :
      (css : List (Dict S)) (r : ConnectorRegistry S V M)
      → r.sse_hub ≡ true
      → (polls css r).broadcasts
        ≡ r.broadcasts
          ++ map connector_status
              (changes stringify r.last_status_snapshot (map (gather api.get_status) css))
  unfolding polls polled
  polls-broadcasts [] r h = sym (append-nil r.broadcasts)
  polls-broadcasts (cs ∷ css) r h =
      polls-broadcasts css (polled cs r) (polled-sse_hub cs r ∙ h)
      ∙ (elim (Bool-cases (is_unchanged cs r)) [
        | inl e ↦ rw (polled-snapshot cs r, polled-unchanged cs r e, e) refl
        | inr e ↦
            rw (polled-snapshot cs r, polled-changed cs r h e, e)
              (append_assoc r.broadcasts (connector_status (gather api.get_status cs) ∷ []) _)
      ])

  -- With a hub, stopping all connectors broadcasts once more, the statuses that the connectors
  -- have when they are stopped, in the order of registration, and no polling timer is left.
  pub stop_all-broadcasts :
      (r : ConnectorRegistry S V M)
      → r.sse_hub ≡ true
      → let r' = stop_all api stringify r in
        (r'.broadcasts
          ≡ r.broadcasts
            ++ connector_status (gather (λ c. api.get_status (api.stop c)) r.connectors) ∷ [])
        × (r'.status_poll_interval ≡ false)
  unfolding stop_all
  stop_all-broadcasts r h = ground (arith, gather-each api.get_status api.stop r.connectors)
