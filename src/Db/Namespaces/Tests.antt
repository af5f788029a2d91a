-- ===== src/Db/Namespaces/Tests.antt =====
-- src/db/repositories/namespace-repository.ts: two namespaces, of which one goes.
use opcua_light_server.Prelude.{◌≡◌, refl, true, not, none, some, [], ◌∷◌, all, str_eq, codes}
use opcua_light_server.Db.Tables.{
  NamespaceRow, ObjectNodeRow, NodeRow, Tables, find_namespace, find_object_node,
}
use opcua_light_server.Db.Namespaces.{delete}
use opcua_light_server.Db.Namespaces.Cascade.{AreLinked, delete-AreLinked}

abbrev plant : NamespaceRow
plant = record { id = "n"; name = codes "Plant"; description = none; uri = codes "urn:plant" }

abbrev hall : NamespaceRow
hall = record { id = "m"; name = codes "Hall"; description = none; uri = codes "urn:hall" }

abbrev pump : ObjectNodeRow
pump = record { id = "a"; namespace_id = "n"; parent_object_node_id = none; name = codes "pump" }

-- Its parent is in the other namespace.
abbrev lamp : ObjectNodeRow
lamp = record {
  id = "b";
  namespace_id = "m";
  parent_object_node_id = some "a";
  name = codes "lamp";
}

abbrev speed : NodeRow
speed = record {
  id = "v";
  namespace_id = "n";
  object_node_id = some "a";
  name = codes "speed";
  data_type = codes "Double";
  initial_value = none;
  description = none;
}

abbrev tables : Tables
tables = record {
  namespaces = plant ∷ hall ∷ [];
  object_nodes = lamp ∷ pump ∷ [];
  nodes = speed ∷ [];
}

delete-AreLinked_example :
    AreLinked (delete "n" tables).0
    × (find_namespace "n" (delete "n" tables).0.namespaces ≡ none)
    × (all (λ r. not (str_eq r.namespace_id "n")) (delete "n" tables).0.object_nodes ≡ true)
    × (all (λ n. not (str_eq n.namespace_id "n")) (delete "n" tables).0.nodes ≡ true)
unfolding find_object_node find_namespace
delete-AreLinked_example =
    delete-AreLinked "n" tables (refl, refl, refl, (refl, refl, refl, tt)) (refl, refl) refl
