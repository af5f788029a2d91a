-- ===== src/Generator.antt =====
-- src/config-generator/index.ts: the configuration of the runtime, out of the rows that its queries return.
pub mod Paths
pub mod Nodes
pub mod Properties
pub mod Tests
use opcua_light_server.Prelude.{
  ℕ, zero, suc, ◌+◌, Bool, true, false, ◌&&◌, ◌||◌, not, Option, none, some, List, [], ◌∷◌, ◌++◌,
  map, String, Text, codes, text_eq, str_eq, is_empty, is_some, if◌then◌else◌, Dict, lookup, insert,
}
use opcua_light_server.Db.Tables.{NamespaceRow, ObjectNodeRow}
use opcua_light_server.Db.Security.{SecurityConfigRow}

pub record SecurityConfigOutput : Type 0 where
  pub mode : Text
  pub certificate_path : Option Text
  pub private_key_path : Option Text
  pub application_uri : Option Text
  pub pki_trusted_path : Option Text
  pub pki_rejected_path : Option Text

abbrev pub mode_none : SecurityConfigOutput
mode_none = record {
  mode = codes "None";
  certificate_path = none;
  private_key_path = none;
  application_uri = none;
  pki_trusted_path = none;
  pki_rejected_path = none;
}

-- The path where there is one that is not empty.
abbrev pub non_empty : Option Text → Option Text
non_empty none = none
non_empty (some p) = if is_empty p then none else some p

abbrev pub application_uri : Text
application_uri = codes "urn:opcua-light-server:application"

-- `resolve` and `exists_sync` are those of Node's `path` and `fs`.
module _ (resolve : Text → Text) (exists_sync : Text → Bool) where
  -- The part for a mode that signs or encrypts.
  abbrev pub with_pki : SecurityConfigOutput → SecurityConfigOutput
  with_pki config =
      let trusted : Text = resolve (codes "data/pki/trusted") in
      let rejected : Text = resolve (codes "data/pki/rejected") in
      if not (exists_sync trusted) || not (exists_sync rejected) then mode_none else record config {
        application_uri = some application_uri;
        pki_trusted_path = some trusted;
        pki_rejected_path = some rejected;
      }

  unfoldable pub build_security_config : Option SecurityConfigRow → SecurityConfigOutput
  build_security_config none = mode_none
  build_security_config (some row) =
      let certificate : Option Text = non_empty row.certificate_path in
      let private_key : Option Text = non_empty row.private_key_path in
      let config : SecurityConfigOutput = record mode_none {
        mode = row.mode;
        certificate_path = certificate;
        private_key_path = private_key;
      } in
      if text_eq row.mode (codes "None")
      then config
      else if not (is_some certificate) || not (is_some private_key)
      then mode_none
      else with_pki config

-- `new Map(rows.map(n => [n.id, n]))`
unfoldable pub node_map : List ObjectNodeRow → Dict ObjectNodeRow
unfolding insert
node_map rows = go [] rows
  where
    go : Dict ObjectNodeRow → List ObjectNodeRow → Dict ObjectNodeRow
    go m [] = m
    go m (r ∷ rows) = go (insert r.id r m) rows

-- The loop of `computeObjectNodePath`, with its rounds counted: `none` where they do not suffice.
unfoldable pub collect_parts : ℕ → Dict ObjectNodeRow → String → List Text → Option (List Text)
unfolding lookup
collect_parts zero m id parts = none
collect_parts (suc fuel) m id parts = if str_eq id "" then some parts else elim (lookup id m) [
  | none ↦ some parts
  | some r ↦ elim r.parent_object_node_id [
    | none ↦ some (r.name ∷ parts)
    | some parent ↦ collect_parts fuel m parent (r.name ∷ parts)
  ]
]

-- `parts.join('.')`
unfoldable pub join_dots : List Text → Text
join_dots [] = []
join_dots (p ∷ []) = p
join_dots (p ∷ q ∷ parts) = p ++ b'.' ∷ join_dots (q ∷ parts)

unfoldable pub compute_object_node_path : ℕ → String → List ObjectNodeRow → Text → Option Text
unfolding node_map collect_parts join_dots
compute_object_node_path fuel id rows namespace_name =
    elim (collect_parts fuel (node_map rows) id []) [
      | none ↦ none
      | some parts ↦ some (join_dots (namespace_name ∷ parts))
    ]
