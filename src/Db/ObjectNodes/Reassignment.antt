-- ===== src/Db/ObjectNodes/Reassignment.antt =====
-- src/db/repositories/object-node-repository.ts: what `create` refuses, and what `delete` makes of the rest.
use opcua_light_server.Prelude.{
  ◌≤◌, ◌≡◌, ◌≢◌, ◌∙◌, Bool-cases, ◌↔◌, refl, Bool, true, false, not, ◌&&◌, Option, none, some, List,
  [], ◌∷◌, arith, map, any, String, str_eq, eq_iff, eq_refl, text_eq, text_eq_iff, Option-cases,
  inl, inr, ap,
}
use opcua_light_server.Db.Tables.{
  ObjectNodeRow, NamespaceRow, Tables, find_namespace, find_object_node,
}
use opcua_light_server.Db.ObjectNodes.{
  max_depth, CreateObjectNodeInput, too_deep, reassignment_conflict, deleted, failed, same_parent,
  insert_row, create, reassigned, move, move_node, conflicts, delete,
}
use opcua_light_server.Db.ObjectNodes.Forest.{is_found, IsForest, depth, depth-parent}
use opcua_light_server.Db.ObjectNodes.Removal.{find-removed, depth-removed}
use opcua_light_server.Db.ObjectNodes.Hierarchy.{IsHierarchy, compute_depth-depth}

-- In a namespace that exists and under an object node that exists, `create` is refused for the depth
-- exactly if that object node has five levels, itself included, whatever the name.
pub create-too_deep :
    (id : String) (input : CreateObjectNodeInput) (t : Tables) (n : NamespaceRow) (p : String)
    → IsHierarchy t
    → find_namespace input.namespace_id t.namespaces ≡ some n
    → input.parent_object_node_id ≡ some p
    → is_found p t.object_nodes ≡ true
    → (create id input t ≡ (t, failed too_deep)) ↔ (depth p t.object_nodes ≡ max_depth)
unfolding create insert_row
create-too_deep id input t n p v e e' f = elim (Option-cases (find_object_node p t.object_nodes)) [
  | inl h ↦ ground (arith, h)
  | inr (r, h) ↦ ground (arith, e, e', h, compute_depth-depth t.object_nodes p v.0 f, v.1 p)
]

pub any-find :
    (f : ObjectNodeRow → Bool) (rows : List ObjectNodeRow) (id : String) (r : ObjectNodeRow)
    → find_object_node id rows ≡ some r
    → f r ≡ true
    → any f rows ≡ true
unfolding find_object_node
any-find f [] id r e h = cc
any-find f (s ∷ rows) id r e h = ground (arith, any-find f rows id r, ap f)

pub same_parent_refl : (p : Option String) → same_parent p p ≡ true
same_parent_refl none = refl
same_parent_refl (some p) = eq_refl p

pub find-id :
    (rows : List ObjectNodeRow) (id : String) (r : ObjectNodeRow)
    → find_object_node id rows ≡ some r
    → str_eq r.id id ≡ true
unfolding find_object_node
find-id [] id r e = cc
find-id (s ∷ rows) id r e = ground (arith, find-id rows id r)

same_parent-own :
    (rows : List ObjectNodeRow) (id : String) (r : ObjectNodeRow)
    → IsForest rows
    → find_object_node id rows ≡ some r
    → same_parent r.parent_object_node_id (some id) ≡ false
same_parent-own rows id r v e = elim (Option-cases r.parent_object_node_id) [
  | inl h ↦ rw h refl
  | inr (p, h) ↦ ground (arith, h, depth-parent rows id r v e, eq_iff p id)
]

conflicts-same_name :
    (rows : List ObjectNodeRow) (id : String) (r child : ObjectNodeRow)
    → IsForest rows
    → find_object_node id rows ≡ some r
    → find_object_node child.id rows ≡ some child
    → child.parent_object_node_id ≡ some id
    → child.namespace_id ≡ r.namespace_id
    → child.name ≡ r.name
    → conflicts id r.parent_object_node_id rows ≡ true
unfolding conflicts reassigned
conflicts-same_name rows id r child v e f p n m =
    let g : (not (same_parent r.parent_object_node_id (some id))
          && (str_eq r.namespace_id child.namespace_id
              && same_parent r.parent_object_node_id r.parent_object_node_id
              && text_eq r.name child.name))
        ≡ true =
      rw (
        same_parent-own rows id r v e,
        n,
        eq_refl r.namespace_id,
        same_parent_refl r.parent_object_node_id,
        m,
        (text_eq_iff r.name r.name).1 refl,
      ) in
    any-find _ rows child.id child f (rw (p, eq_refl id) (any-find _ rows id r e g))

-- An object node that has a child of its own name cannot be deleted: the child's reassignment is
-- refused, and its variable nodes have left it for its parent all the same.
pub delete-same_name :
    (t : Tables) (id : String) (r child : ObjectNodeRow)
    → IsForest t.object_nodes
    → find_object_node id t.object_nodes ≡ some r
    → find_object_node child.id t.object_nodes ≡ some child
    → child.parent_object_node_id ≡ some id
    → child.namespace_id ≡ r.namespace_id
    → child.name ≡ r.name
    → delete id t ≡ (
      record t { nodes = map (move_node id r.parent_object_node_id) t.nodes },
      failed reassignment_conflict,
    )
unfolding delete
delete-same_name t id r child v e f p n m =
    rw (delete, e, conflicts-same_name t.object_nodes id r child v e f p n m)

reassigned-own :
    (id : String) (parent p : Option String) → p ≡ some id → reassigned id parent p ≡ parent
unfolding reassigned
reassigned-own id parent p e = rw (e, eq_refl id) refl

reassigned-other :
    (id : String) (parent p : Option String) → ¬ (p ≡ some id) → reassigned id parent p ≡ p
unfolding reassigned
reassigned-other id parent none n = refl
reassigned-other id parent (some q) n = elim (Bool-cases (str_eq q id)) [
  | inl e ↦ absurd (n (ap some ((eq_iff q id).0 e)))
  | inr e ↦ rw e refl
]

-- A `delete` of an object node without such a conflict: it is gone, and each other object node stays
-- with its name and its namespace, under the parent of the deleted one if that was its parent and
-- under its own otherwise, and none gets deeper.
pub delete-find :
    (t : Tables) (id q : String) (r s : ObjectNodeRow)
    → IsForest t.object_nodes
    → find_object_node id t.object_nodes ≡ some r
    → find_object_node q t.object_nodes ≡ some s
    → id ≢ q
    → conflicts id r.parent_object_node_id t.object_nodes ≡ false
    → ((delete id t).1 ≡ deleted)
      × (find_object_node id (delete id t).0.object_nodes ≡ none)
      × ((s' : ObjectNodeRow) × (find_object_node q (delete id t).0.object_nodes ≡ some s')
          × (s'.name ≡ s.name)
          × (s'.namespace_id ≡ s.namespace_id)
          × (s.parent_object_node_id ≡ some id → s'.parent_object_node_id ≡ r.parent_object_node_id)
          × (¬ (s.parent_object_node_id ≡ some id)
              → s'.parent_object_node_id ≡ s.parent_object_node_id)
          × (depth q (delete id t).0.object_nodes ≤ depth q t.object_nodes))
unfolding delete
delete-find t id q r s v e f n c =
    let p = r.parent_object_node_id in
    rw (delete, e, c)
      (
        refl,
        find-removed t.object_nodes id p id ∙ rw (e, eq_refl id) refl,
        (
          move id p s,
          find-removed t.object_nodes id p q ∙ ground (arith, f, n, eq_iff id q),
          refl,
          refl,
          reassigned-own id p s.parent_object_node_id,
          reassigned-other id p s.parent_object_node_id,
          depth-removed id p t.object_nodes q v (λ r' e'. ground (arith, e, e')),
        ),
      )
