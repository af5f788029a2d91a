-- ===== src/Db/Tables.antt =====
-- src/db/schema.sql: the rows of the tables, and the statements that several repositories use.
-- A table is the list of its rows, the newest first; `none` is NULL.
use opcua_light_server.Prelude.{
  Option, none, some, List, [], ◌∷◌, String, Text, if◌then◌else◌, str_eq,
}

pub record NamespaceRow : Type 0 where
  pub id : String
  pub name : Text
  pub description : Option Text
  pub uri : Text

pub record ObjectNodeRow : Type 0 where
  pub id : String
  pub namespace_id : String
  pub parent_object_node_id : Option String
  pub name : Text

pub record NodeRow : Type 0 where
  pub id : String
  pub namespace_id : String
  pub object_node_id : Option String
  pub name : Text
  pub data_type : Text
  pub initial_value : Option Text
  pub description : Option Text

pub record Tables : Type 0 where
  pub namespaces : List NamespaceRow
  pub object_nodes : List ObjectNodeRow
  pub nodes : List NodeRow

-- `SELECT … WHERE id = ?`
unfoldable pub find_namespace : String → List NamespaceRow → Option NamespaceRow
find_namespace id [] = none
find_namespace id (r ∷ rows) = if str_eq r.id id then some r else find_namespace id rows

unfoldable pub find_object_node : String → List ObjectNodeRow → Option ObjectNodeRow
find_object_node id [] = none
find_object_node id (r ∷ rows) = if str_eq r.id id then some r else find_object_node id rows
