-- ===== src/Connector/Mappings.antt =====
-- src/connectors/core/base-connector.ts: the mappings of the connections, and their status.
use opcua_light_server.Prelude.{
  String, Option, none, some, List, [], ◌∷◌, if◌then◌else◌, is_empty, Dict, lookup, insert, delete,
}
use opcua_light_server.Connector.Types.{
  Mapping, ConnectionStatus, Managed, Connector, connection_not_found, mapping_not_found, Outcome,
  returned, threw,
}

module _ {P X : Type 0} where
  unfoldable pub status_of : Managed P X → ConnectionStatus
  status_of m = record {
    connection_id = m.config.id;
    state = m.state;
    last_poll_at = m.last_poll_at;
    error_message = elim m.error_message [
      | none ↦ none
      | some s ↦ if is_empty s then none else some s
    ];
  }

  unfoldable pub statuses : Dict (Managed P X) → List ConnectionStatus
  unfolding status_of
  statuses [] = []
  statuses ((id, m) ∷ rest) = status_of m ∷ statuses rest

  -- The first connection that has the mapping loses it; `none` if none has it.
  unfoldable pub drop_mapping : String → Dict (Managed P X) → Option (Dict (Managed P X))
  drop_mapping id [] = none
  drop_mapping id ((k, m) ∷ rest) =
      let later = drop_mapping id rest in
      elim (lookup id m.mappings) [
        | some mapping ↦ some ((k, record m { mappings = delete id m.mappings }) ∷ rest)
        | none ↦ elim later [ none ↦ none | some rest' ↦ some ((k, m) ∷ rest') ]
      ]

module _ {P X V : Type 0} where
  unfoldable pub get_status : Connector P X V → List ConnectionStatus
  unfolding statuses
  get_status s = statuses s.connections

  unfoldable pub add_mapping : Mapping → Connector P X V → Connector P X V × Outcome
  add_mapping mapping s = elim (lookup mapping.connection_id s.connections) [
    | none ↦ (s, threw (connection_not_found mapping.connection_id))
    | some m ↦ (
      record s {
        connections =
            insert mapping.connection_id
              (record m { mappings = insert mapping.id mapping m.mappings }) s.connections;
      },
      returned,
    )
  ]

  unfoldable pub remove_mapping : String → Connector P X V → Connector P X V × Outcome
  unfolding drop_mapping
  remove_mapping id s = elim (drop_mapping id s.connections) [
    | none ↦ (s, threw (mapping_not_found id))
    | some connections ↦ (
      record s {
        connections = connections;
        core = record s.core { current_values = delete id s.core.current_values };
      },
      returned,
    )
  ]
