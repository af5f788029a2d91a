-- ===== src/Db/Namespaces/Cascade.antt =====
-- src/db/repositories/namespace-repository.ts: what is left when a namespace is deleted.
use opcua_light_server.Prelude.{
  ◌≡◌, refl, true, not, Option, none, some, List, [], ◌∷◌, all, arith, String, str_eq, eq_iff,
  is_some, if◌then◌else◌, Option-cases, inl, inr,
}
use opcua_light_server.Db.Tables.{
  NamespaceRow, ObjectNodeRow, NodeRow, Tables, find_namespace, find_object_node,
}
use opcua_light_server.Db.ObjectNodes.Forest.{has_parent, IsForest}
use opcua_light_server.Db.Namespaces.{
  drop_namespace, detached, drop_object_nodes, drop_nodes, delete,
}

-- The row without the reference to a row that is dropped, where it stays.
abbrev kept : String → List ObjectNodeRow → Option ObjectNodeRow → Option ObjectNodeRow
kept ns rows none = none
kept ns rows (some r) =
    if str_eq r.namespace_id ns
    then none
    else some (record r { parent_object_node_id = detached ns rows r.parent_object_node_id })

find-drop_object_nodes :
    (ns : String) (rows todo : List ObjectNodeRow) (q : String)
    → IsForest todo
    → find_object_node q (drop_object_nodes ns rows todo) ≡ kept ns rows (find_object_node q todo)
unfolding find_object_node drop_object_nodes
find-drop_object_nodes ns rows [] q v = refl
find-drop_object_nodes ns rows (r ∷ todo) q v =
    ground (arith, find-drop_object_nodes ns rows todo q v.3, v.0, eq_iff r.id q)

-- A reference to a row that stays is kept, and the others are null.
has_parent-detached :
    (ns : String) (rows : List ObjectNodeRow) (p : Option String)
    → IsForest rows
    → has_parent p rows ≡ true
    → has_parent (detached ns rows p) (drop_object_nodes ns rows rows) ≡ true
has_parent-detached ns rows none v h = refl
has_parent-detached ns rows (some p) v h = elim (Option-cases (find_object_node p rows)) [
  | inl e ↦ ground (arith, h, e)
  | inr (r, e) ↦ ground (arith, h, e, find-drop_object_nodes ns rows rows p v)
]

-- Every reference is to an object node that exists.
abbrev pub AreLinked : Tables → Type 0
AreLinked t =
    (all (λ r. has_parent r.parent_object_node_id t.object_nodes) t.object_nodes ≡ true)
    × (all (λ n. has_parent n.object_node_id t.object_nodes) t.nodes ≡ true)

all-drop_object_nodes :
    (ns : String) (rows todo : List ObjectNodeRow)
    → IsForest rows
    → all (λ r. has_parent r.parent_object_node_id rows) todo ≡ true
    → (all
          (λ r. has_parent r.parent_object_node_id (drop_object_nodes ns rows rows))
          (drop_object_nodes ns rows todo)
        ≡ true)
      × (all (λ r. not (str_eq r.namespace_id ns)) (drop_object_nodes ns rows todo) ≡ true)
unfolding drop_object_nodes
all-drop_object_nodes ns rows [] v h = (refl, refl)
all-drop_object_nodes ns rows (r ∷ todo) v h = ground (
  arith,
  h,
  all-drop_object_nodes ns rows todo v,
  has_parent-detached ns rows r.parent_object_node_id v,
)

all-drop_nodes :
    (ns : String) (rows : List ObjectNodeRow) (nodes : List NodeRow)
    → IsForest rows
    → all (λ n. has_parent n.object_node_id rows) nodes ≡ true
    → (all
          (λ n. has_parent n.object_node_id (drop_object_nodes ns rows rows))
          (drop_nodes ns rows nodes)
        ≡ true)
      × (all (λ n. not (str_eq n.namespace_id ns)) (drop_nodes ns rows nodes) ≡ true)
unfolding drop_nodes
all-drop_nodes ns rows [] v h = (refl, refl)
all-drop_nodes ns rows (n ∷ nodes) v h =
    ground
      (arith, h, all-drop_nodes ns rows nodes v, has_parent-detached ns rows n.object_node_id v)

find-drop_namespace :
    (id : String) (rows : List NamespaceRow) → find_namespace id (drop_namespace id rows) ≡ none
unfolding find_namespace drop_namespace
find-drop_namespace id [] = refl
find-drop_namespace id (r ∷ rows) = ground (arith, find-drop_namespace id rows)

-- A namespace that is deleted takes its object nodes and variable nodes with it, and every reference
-- that is left is to an object node that exists, if this was so before and ids are unique.
pub delete-AreLinked :
    (id : String) (t : Tables)
    → IsForest t.object_nodes
    → AreLinked t
    → is_some (find_namespace id t.namespaces) ≡ true
    → AreLinked (delete id t).0
      × (find_namespace id (delete id t).0.namespaces ≡ none)
      × (all (λ r. not (str_eq r.namespace_id id)) (delete id t).0.object_nodes ≡ true)
      × (all (λ n. not (str_eq n.namespace_id id)) (delete id t).0.nodes ≡ true)
unfolding delete
delete-AreLinked id t v l f =
    let o = all-drop_object_nodes id t.object_nodes t.object_nodes v l.0 in
    let n = all-drop_nodes id t.object_nodes t.nodes v l.1 in
    rw f ((o.0, n.0), find-drop_namespace id t.namespaces, o.1, n.1)
