-- ===== src/Db/Namespaces.antt =====
-- src/db/repositories/namespace-repository.ts: the namespaces, while the database can be reached, and what
-- the schema deletes with them.
pub mod Cascade
pub mod Tests
use opcua_light_server.Prelude.{
  ℕ, Bool, true, false, ◌&&◌, ◌||◌, not, Option, none, some, List, [], ◌∷◌, any, String, Text,
  text_eq, str_eq, is_empty, is_some, if◌then◌else◌,
}
use opcua_light_server.Db.Tables.{
  NamespaceRow, ObjectNodeRow, NodeRow, Tables, find_namespace, find_object_node,
}

pub record CreateNamespaceRequest : Type 0 where
  pub name : Text
  pub description : Option Text
  pub uri : Text

-- `some none` sets a description to null.
pub record UpdateNamespaceRequest : Type 0 where
  pub name : Option Text
  pub description : Option (Option Text)
  pub uri : Option Text

-- `raised` is an exception of SQLite.
pub data NamespaceResult : Type 0 where
  stored : NamespaceRow → NamespaceResult
  removed : NamespaceResult
  duplicate_name duplicate_uri not_found raised : NamespaceResult

abbrev pub has_name : Text → List NamespaceRow → Bool
has_name name rows = any (λ r. text_eq r.name name) rows

abbrev pub has_uri : Text → List NamespaceRow → Bool
has_uri uri rows = any (λ r. text_eq r.uri uri) rows

unfoldable pub drop_namespace : String → List NamespaceRow → List NamespaceRow
drop_namespace id [] = []
drop_namespace id (r ∷ rows) =
    if str_eq r.id id then drop_namespace id rows else r ∷ drop_namespace id rows

unfoldable pub replace_namespace : NamespaceRow → List NamespaceRow → List NamespaceRow
replace_namespace row [] = []
replace_namespace row (r ∷ rows) =
    if str_eq r.id row.id then row ∷ replace_namespace row rows else r ∷ replace_namespace row rows

-- `id` is the new UUID.
unfoldable pub create : String → CreateNamespaceRequest → Tables → Tables × NamespaceResult
unfolding find_namespace
create id request t =
    if has_name request.name t.namespaces
    then (t, duplicate_name)
    else if has_uri request.uri t.namespaces
    then (t, duplicate_uri)
    else if is_some (find_namespace id t.namespaces)
    then (t, raised)
    else let row : NamespaceRow = record {
      id = id;
      name = request.name;
      description = request.description;
      uri = request.uri;
    } in
      (record t { namespaces = row ∷ t.namespaces }, stored row)

-- The new text, where it is given, not empty and not the old one, is that of another row.
abbrev pub is_clash : Option Text → Text → Bool → Bool
is_clash none old found = false
is_clash (some new) old found = not (is_empty new) && (not (text_eq new old) && found)

abbrev pub or_old : Option Text → Text → Text
or_old none old = old
or_old (some new) old = new

abbrev pub updated_namespace : UpdateNamespaceRequest → NamespaceRow → NamespaceRow
updated_namespace request row = record row {
  name = or_old request.name row.name;
  description = elim request.description [ none ↦ row.description | some d ↦ d ];
  uri = or_old request.uri row.uri;
}

unfoldable pub update : String → UpdateNamespaceRequest → Tables → Tables × NamespaceResult
unfolding find_namespace drop_namespace replace_namespace
update id request t = elim (find_namespace id t.namespaces) [
  | none ↦ (t, not_found)
  | some row ↦
      let new : NamespaceRow = updated_namespace request row in
      let others : List NamespaceRow = drop_namespace id t.namespaces in
      if is_clash request.name row.name (has_name new.name t.namespaces)
      then (t, duplicate_name)
      else if is_clash request.uri row.uri (has_uri new.uri t.namespaces)
      then (t, duplicate_uri)
      else if has_name new.name others || has_uri new.uri others
      then (t, raised)
      else (record t { namespaces = replace_namespace new t.namespaces }, stored new)
]

-- Whether an object node goes with the namespace.
abbrev pub is_dropped : String → List ObjectNodeRow → String → Bool
is_dropped namespace_id rows id = elim (find_object_node id rows) [
  | none ↦ false
  | some r ↦ str_eq r.namespace_id namespace_id
]

-- `ON DELETE SET NULL`
abbrev pub detached : String → List ObjectNodeRow → Option String → Option String
detached namespace_id rows none = none
detached namespace_id rows (some p) = if is_dropped namespace_id rows p then none else some p

-- `ON DELETE CASCADE` on object nodes, of which `rows` are all.
unfoldable pub drop_object_nodes :
    String → List ObjectNodeRow → List ObjectNodeRow → List ObjectNodeRow
unfolding find_object_node
drop_object_nodes namespace_id rows [] = []
drop_object_nodes namespace_id rows (r ∷ todo) =
    let rest = drop_object_nodes namespace_id rows todo in
    if str_eq r.namespace_id namespace_id
    then rest
    else record r { parent_object_node_id = detached namespace_id rows r.parent_object_node_id }
      ∷ rest

-- The same on variable nodes.
unfoldable pub drop_nodes : String → List ObjectNodeRow → List NodeRow → List NodeRow
unfolding find_object_node
drop_nodes namespace_id rows [] = []
drop_nodes namespace_id rows (n ∷ nodes) =
    let rest = drop_nodes namespace_id rows nodes in
    if str_eq n.namespace_id namespace_id
    then rest
    else record n { object_node_id = detached namespace_id rows n.object_node_id } ∷ rest

unfoldable pub delete : String → Tables → Tables × NamespaceResult
unfolding find_namespace drop_namespace drop_object_nodes drop_nodes
delete id t =
    if is_some (find_namespace id t.namespaces)
    then (
      record {
        namespaces = drop_namespace id t.namespaces;
        object_nodes = drop_object_nodes id t.object_nodes t.object_nodes;
        nodes = drop_nodes id t.object_nodes t.nodes;
      },
      removed,
    )
    else (t, not_found)
