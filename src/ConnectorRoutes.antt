-- ===== src/ConnectorRoutes.antt =====
-- src/api/routes/connectors.ts: the routes that change connections and mappings, and what they tell the
-- connectors. An answer is its status.
pub mod Notices
pub mod Tests
use opcua_light_server.Prelude.{
  ℕ, suc, Bool, true, false, ◌&&◌, ◌||◌, not, Option, none, some, List, [], ◌∷◌, ◌++◌, String, Text,
  codes, str_eq, is_empty, is_some, trim, if◌then◌else◌, Dict, lookup,
}
use opcua_light_server.Db.Connectors.{
  ConnectionRow, MappingRow, ConnectorTables, CreateConnectionRequest, UpdateConnectionRequest,
  CreateMappingRequest, UpdateMappingRequest, MappingError, connection_not_found, mapping_not_found,
  node_not_found, node_duplicate, address_duplicate, MappingResult, mapped, removed, rejected,
  raised, create_connection, update_connection, delete_connection, create_mapping, update_mapping,
  delete_mapping,
}

-- A call of a connector.
pub data Notice : Type 0 where
  connection_added connection_updated : String → ConnectionRow → Notice
  connection_removed mapping_removed : String → Notice
  mapping_added : String → MappingRow → Notice

pub record Answer : Type 0 where
  pub status : ℕ
  pub notices : List Notice

pub record PostConnection : Type 0 where
  pub type : Option Text
  pub name : Option Text
  pub params : Option Text
  pub polling_interval_ms : Option ℕ
  pub reconnect_interval_ms : Option ℕ
  pub enabled : Option Bool

pub record PostMapping : Type 0 where
  pub connection_id : Option String
  pub node_id : Option String
  pub device_address : Option Text
  pub description : Option Text

pub data RouteCall : Type 0 where
  posts_mapping : String → PostMapping → RouteCall
  removes_mapping removes_connection : String → RouteCall

abbrev pub refuse : ℕ → Answer
refuse status = record { status = status; notices = [] }

-- Given, and more than blanks.
abbrev pub is_present : Option Text → Bool
is_present none = false
is_present (some t) = not (is_empty (trim t))

abbrev pub is_present_id : Option String → Bool
is_present_id none = false
is_present_id (some s) = not (is_empty (trim (codes s)))

-- A field of the request is missing or blank.
abbrev pub is_bad : PostMapping → Bool
is_bad body =
    not (is_present_id body.connection_id)
    || (is_some body.node_id && not (is_present_id body.node_id)
        || not (is_present body.device_address))

abbrev pub error_status : MappingError → ℕ
error_status connection_not_found = 404
error_status mapping_not_found = 404
error_status node_not_found = 404
error_status node_duplicate = 409
error_status address_duplicate = 409

-- `knows` says whether the registry has a connector of a type, and `is_valid` whether the parameters fit
-- its schema, if there is one.
module _ (knows : Text → Bool) (is_valid : Text → Text → Bool) where
  -- A notice to the connector of a connection that is found.
  abbrev pub notify : String → ConnectorTables → Notice → List Notice
  notify connection_id t notice = elim (lookup connection_id t.connections) [
    | none ↦ []
    | some c ↦ if knows c.type then notice ∷ [] else []
  ]

  unfoldable pub post_connection :
      String → PostConnection → ConnectorTables → ConnectorTables × Answer
  unfolding create_connection lookup
  post_connection id body t = elim body.params [
    | none ↦ (t, refuse 400)
    | some params ↦ elim body.name [
      | none ↦ (t, refuse 400)
      | some name ↦ elim body.type [
        | none ↦ (t, refuse 400)
        | some type ↦
            if is_empty (trim name) || (is_empty (trim type) || not (is_valid type params))
            then (t, refuse 400)
            else let request : CreateConnectionRequest = record {
              type = type;
              name = name;
              params = params;
              polling_interval_ms = body.polling_interval_ms;
              reconnect_interval_ms = body.reconnect_interval_ms;
              enabled = body.enabled;
            } in
              elim (create_connection id request t) [
                | none ↦ (t, refuse 500)
                | some t' ↦ (
                  t',
                  record {
                    status = 201;
                    notices = elim (lookup id t'.connections) [
                      | none ↦ []
                      | some row ↦ if knows row.type then connection_added id row ∷ [] else []
                    ];
                  },
                )
              ]
      ]
    ]
  ]

  abbrev pub has_field : UpdateConnectionRequest → Bool
  has_field body =
      (elim body.name [ none ↦ false | some n ↦ not (is_empty n) ])
      || (is_some body.params
          || (is_some body.polling_interval_ms
              || (is_some body.reconnect_interval_ms || is_some body.enabled)))

  abbrev pub fits_schema : Option Text → Option ConnectionRow → Bool
  fits_schema none row = true
  fits_schema (some params) none = true
  fits_schema (some params) (some row) = is_valid row.type params

  unfoldable pub put_connection :
      String → UpdateConnectionRequest → ConnectorTables → ConnectorTables × Answer
  unfolding update_connection lookup
  put_connection id body t =
      if not (has_field body) || not (fits_schema body.params (lookup id t.connections))
      then (t, refuse 400)
      else elim (update_connection id body t) [
        | none ↦ (t, refuse 404)
        | some t' ↦ (
          t',
          record {
            status = 200;
            notices = elim (lookup id t'.connections) [
              | none ↦ []
              | some row ↦ if knows row.type then connection_updated id row ∷ [] else []
            ];
          },
        )
      ]

  unfoldable pub remove_connection : String → ConnectorTables → ConnectorTables × Answer
  unfolding delete_connection lookup
  remove_connection id t = elim (delete_connection id t) [
    | none ↦ (t, refuse 404)
    | some t' ↦ (t', record { status = 204; notices = notify id t (connection_removed id) })
  ]

  -- What is answered to a creation, and told to the connector.
  abbrev pub created : ConnectorTables × MappingResult → ConnectorTables × Answer
  created made = elim made.1 [
    | mapped id row ↦ (
      made.0,
      record { status = 201; notices = notify row.connection_id made.0 (mapping_added id row) },
    )
    | rejected e ↦ (made.0, refuse (error_status e))
    | removed ↦ (made.0, refuse 500)
    | raised ↦ (made.0, refuse 500)
  ]

  unfoldable pub post_mapping : String → PostMapping → ConnectorTables → ConnectorTables × Answer
  unfolding create_mapping lookup
  post_mapping id body t = elim body.connection_id [
    | none ↦ (t, refuse 400)
    | some connection_id ↦ elim body.device_address [
      | none ↦ (t, refuse 400)
      | some device_address ↦
          if is_bad body
          then (t, refuse 400)
          else created (
              create_mapping id
                (record {
                  connection_id = connection_id;
                  node_id = body.node_id;
                  device_address = device_address;
                  description = body.description;
                })
                t)
    ]
  ]

  unfoldable pub put_mapping_route :
      String → UpdateMappingRequest → ConnectorTables → ConnectorTables × Answer
  unfolding update_mapping
  put_mapping_route id body t =
      let no_address : Bool = elim body.device_address [ none ↦ true | some a ↦ is_empty a ] in
      let no_node : Bool = elim body.node_id [ none ↦ true | some n ↦ str_eq n "" ] in
      if no_address && (no_node && not (is_some body.description))
      then (t, refuse 400)
      else let made : ConnectorTables × MappingResult = update_mapping id body t in
        elim made.1 [
          | mapped j row ↦ (made.0, refuse 200)
          | rejected e ↦ (made.0, refuse (error_status e))
          | removed ↦ (made.0, refuse 500)
          | raised ↦ (made.0, refuse 500)
        ]

  unfoldable pub remove_mapping : String → ConnectorTables → ConnectorTables × Answer
  unfolding delete_mapping lookup
  remove_mapping id t = elim (lookup id t.mappings) [
    | none ↦ (t, refuse 404)
    | some row ↦ (
      (delete_mapping id t).0,
      record { status = 204; notices = notify row.connection_id t (mapping_removed id) },
    )
  ]

  -- The routes after which a connector has other mappings.
  unfoldable pub handle : RouteCall → ConnectorTables → ConnectorTables × Answer
  unfolding post_mapping remove_mapping remove_connection
  handle (posts_mapping id body) t = post_mapping id body t
  handle (removes_mapping id) t = remove_mapping id t
  handle (removes_connection id) t = remove_connection id t
