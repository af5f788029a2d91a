-- ===== src/Db/Connectors/Bulk.antt =====
-- src/db/repositories/connector-repository.ts: `createMappingsBulk` and the single creations.
use opcua_light_server.Prelude.{ℕ, suc, ◌≡◌, ◌⊎◌, List, [], ◌∷◌, String}
use opcua_light_server.Db.Connectors.{
  MappingRow, ConnectorTables, CreateMappingRequest, MappingError, MappingResult, mapped,
  ConnectorCall, creates,
}

-- The calls of the single requests.
abbrev pub single : String × CreateMappingRequest → ConnectorCall
single p = creates p.0 p.1

-- A mapping that is made of a request, with its id.
abbrev pub IsMadeOf : String × CreateMappingRequest → String × MappingRow → Type 0
IsMadeOf (id, request) (id', row) =
    (id' ≡ id)
    × (row.connection_id ≡ request.connection_id)
    × (row.node_id ≡ request.node_id)
    × (row.device_address ≡ request.device_address)
    × (row.description ≡ request.description)

-- The created mappings and the errors, in the order of the requests from index `i`: each request is the
-- next of the created or, with its index, the next of the errors.
abbrev pub AreAccounted :
    ℕ
    → List (String × CreateMappingRequest)
    → List (String × MappingRow)
    → List (ℕ × MappingError)
    → Type 0
AreAccounted i [] created errors = (created ≡ []) × (errors ≡ [])
AreAccounted i (request ∷ requests) created errors =
    ((made : String × MappingRow) × (others : List (String × MappingRow)) × (created
        ≡ made ∷ others)
      × IsMadeOf request made
      × AreAccounted (suc i) requests others errors)
    ⊎ ((e : MappingError) × (others : List (ℕ × MappingError)) × (errors ≡ (i, e) ∷ others)
        × AreAccounted (suc i) requests created others)

-- What a creation returns, where it returns a mapping.
abbrev Returns : String × CreateMappingRequest → ConnectorTables × MappingResult → Type 0
Returns request s = (p : String × MappingRow) → s.1 ≡ mapped p.0 p.1 → IsMadeOf request p
