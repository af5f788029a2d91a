-- ===== src/Generator/Properties.antt =====
-- src/config-generator/index.ts: what the runtime can rely on in its configuration.
use opcua_light_server.Prelude.{
  ℕ, ◌≡◌, refl, sym, ap, ◌∙◌, Bool, true, false, ◌||◌, Option, some, List, [], ◌∷◌, ◌++◌, arith,
  any, Text, codes, text_eq, is_some, ◌==◌, Dict, Option-cases, inl, inr,
}
use opcua_light_server.Prelude.Json.{Json}
use opcua_light_server.Db.Tables.{ObjectNodeRow, NodeRow}
use opcua_light_server.Db.Security.{SecurityConfigRow}
use opcua_light_server.Generator.{non_empty, application_uri, build_security_config}
use opcua_light_server.Generator.Nodes.{
  NodeConfig, ConnectorMappingConfig, node_id_of, parent_path_of, initial_value_of, build_node,
}

-- Where the configuration asks for signing or encryption, the mode is that of the row, the paths of the certificate and of its private
-- key are there and not empty, the application URI is set, and both PKI directories are there and exist.
pub build_security_config-mode :
    (resolve : Text → Text) (exists_sync : Text → Bool) (row : SecurityConfigRow)
    → text_eq (build_security_config resolve exists_sync (some row)).mode (codes "None") ≡ false
    → build_security_config resolve exists_sync (some row) ≡ (record {
      mode = row.mode;
      certificate_path = row.certificate_path;
      private_key_path = row.private_key_path;
      application_uri = some application_uri;
      pki_trusted_path = some (resolve (codes "data/pki/trusted"));
      pki_rejected_path = some (resolve (codes "data/pki/rejected"));
    })
      × (is_some (non_empty row.certificate_path) ≡ true)
      × (is_some (non_empty row.private_key_path) ≡ true)
      × (exists_sync (resolve (codes "data/pki/trusted")) ≡ true)
      × (exists_sync (resolve (codes "data/pki/rejected")) ≡ true)
unfolding build_security_config
build_security_config-mode resolve exists_sync row h = ground (arith, h)

abbrev pub has_dot : Text → Bool
has_dot = any (λ c. c == b'.')

-- The part behind the last dot decides the text before it.
has_dot-append : (s t : Text) → has_dot (s ++ t) ≡ (has_dot s || has_dot t)
has_dot-append [] t = refl
has_dot-append (c ∷ s) t = ground (arith, has_dot-append s t)

has_dot-middle : (q m n : Text) → n ≡ q ++ b'.' ∷ m → has_dot n ≡ true
has_dot-middle q m n e = rw (e, has_dot-append q (b'.' ∷ m)) (ground (arith))

abbrev rest_of : Text → Text
rest_of [] = []
rest_of (c ∷ s) = s

last_part :
    (p q n m : Text)
    → has_dot n ≡ false
    → has_dot m ≡ false
    → p ++ b'.' ∷ n ≡ q ++ b'.' ∷ m
    → (p ≡ q) × (n ≡ m)
last_part [] [] n m hn hm e = ground (arith, e)
last_part [] (c ∷ q) n m hn hm e = ground (arith, hn, has_dot-middle q m n (ap rest_of e))
last_part (c ∷ p) [] n m hn hm e = ground (arith, hm, has_dot-middle p n m (sym (ap rest_of e)))
last_part (c ∷ p) (d ∷ q) n m hn hm e = ground (arith, e, last_part p q n m hn hm)

append-cancel : (p s t : Text) → p ++ s ≡ p ++ t → s ≡ t
append-cancel [] s t e = e
append-cancel (c ∷ p) s t e = ground (arith, e, append-cancel p s t)

module _ {N : Type 0} (parse : Text → Option (Json N)) (show : ℕ → Text) (fuel index : ℕ)
    (name : Text) (rows : List ObjectNodeRow) (mappings : Dict (ConnectorMappingConfig N)) where
  node_id-build_node :
      (a : NodeRow) (c : NodeConfig N)
      → build_node parse show fuel index name rows mappings a ≡ some c
      → c.node_id ≡ node_id_of show index c.parent_path a.name
  unfolding build_node
  node_id-build_node a c e = elim (Option-cases (parent_path_of parse show fuel a rows name)) [
    | inl p ↦ ground (arith, p, e)
    | inr (path, p) ↦ elim (Option-cases (initial_value_of parse show fuel a)) [
      | inl v ↦ ground (arith, p, e, v)
      | inr (value, v) ↦ ground (arith, p, e, v)
    ]
  ]

  -- Two variable nodes of a namespace whose names have no dot, and whose configurations have one node id, have
  -- one name and one parent path.
  pub node_id-name :
      (a b : NodeRow) (c d : NodeConfig N)
      → has_dot a.name ≡ false
      → has_dot b.name ≡ false
      → build_node parse show fuel index name rows mappings a ≡ some c
      → build_node parse show fuel index name rows mappings b ≡ some d
      → c.node_id ≡ d.node_id
      → (a.name ≡ b.name) × (c.parent_path ≡ d.parent_path)
  node_id-name a b c d h k e f i =
      let j : node_id_of show index c.parent_path a.name
          ≡ node_id_of show index d.parent_path b.name =
        sym (node_id-build_node a c e) ∙ i ∙ node_id-build_node b d f in
      let l : codes ";s=" ++ (c.parent_path ++ b'.' ∷ a.name)
          ≡ codes ";s=" ++ (d.parent_path ++ b'.' ∷ b.name) =
        append-cancel (show index) (codes ";s=" ++ (c.parent_path ++ b'.' ∷ a.name))
          (codes ";s=" ++ (d.parent_path ++ b'.' ∷ b.name)) (append-cancel (codes "ns=") _ _ j) in
      let r : (c.parent_path ≡ d.parent_path) × (a.name ≡ b.name) =
        last_part c.parent_path d.parent_path a.name b.name h k
          (append-cancel (codes ";s=") _ _ l) in
      (r.1, r.0)
