-- ===== src/Db/ObjectNodes/Hierarchy.antt =====
-- src/db/repositories/object-node-repository.ts: what holds of the object nodes after any calls.
use opcua_light_server.Prelude.{
  suc, ◌≤◌, ◌≡◌, refl, Bool, true, false, not, ◌||◌, Option, some, List, [], ◌∷◌, arith, map, any,
  all, length, String, str_eq, leb, if-rule, Option-cases, inl, inr,
}
use opcua_light_server.Db.Tables.{ObjectNodeRow, NodeRow, Tables, find_namespace, find_object_node}
use opcua_light_server.Db.ObjectNodes.{
  max_depth, CreateObjectNodeInput, Outcome, compute_depth, same_parent, same_place, insert_row,
  create, reassigned, move_node, conflicts, delete, ObjectNodeCall, creates, deletes, step, run,
}
use opcua_light_server.Db.ObjectNodes.Forest.{
  is_found, has_parent, IsForest, above, depth, parent-is_found, climb-depth,
}
use opcua_light_server.Db.ObjectNodes.Removal.{
  HasRow, reassigned-has_parent, removed-IsForest, depth-removed,
}

-- Where every row has an older parent, the loop of `computeDepth` ends within as many rounds as there
-- are rows, for the id of any row, and returns the number of its ancestors, itself included.
pub compute_depth-depth :
    (rows : List ObjectNodeRow) (id : String)
    → IsForest rows
    → is_found id rows ≡ true
    → compute_depth rows id ≡ some (depth id rows)
unfolding compute_depth
compute_depth-depth rows id v f =
    ground (arith, climb-depth (suc (length rows)) rows id 0 v f (ground (arith)))

-- The object nodes are a forest of depth 5 at most, and variable nodes stand in object nodes that exist.
abbrev pub IsHierarchy : Tables → Type 0
IsHierarchy t =
    IsForest t.object_nodes
    × ((id : String) → depth id t.object_nodes ≤ max_depth)
    × (all (λ n. has_parent n.object_node_id t.object_nodes) t.nodes ≡ true)

abbrev Leaves : Tables × Outcome → Type 0
Leaves s = IsHierarchy s.0

any-is_found :
    (rows : List ObjectNodeRow) (row : ObjectNodeRow)
    → any (λ r. str_eq r.id row.id || same_place r row) rows ≡ false
    → is_found row.id rows ≡ false
unfolding find_object_node
any-is_found [] row e = refl
any-is_found (r ∷ rows) row e = ground (arith, any-is_found rows row)

-- A new row leaves what was found.
all-∷ :
    (row : ObjectNodeRow) (rows : List ObjectNodeRow) (nodes : List NodeRow)
    → all (λ n. has_parent n.object_node_id rows) nodes ≡ true
    → all (λ n. has_parent n.object_node_id (row ∷ rows)) nodes ≡ true
unfolding find_object_node
all-∷ row rows [] e = refl
all-∷ row rows (n ∷ nodes) e = elim (Option-cases n.object_node_id) [
  | inl h ↦ ground (arith, h, all-∷ row rows nodes)
  | inr (p, h) ↦ ground (arith, h, all-∷ row rows nodes)
]

depth-∷ :
    (row : ObjectNodeRow) (rows : List ObjectNodeRow) (id : String)
    → above row.parent_object_node_id rows ≤ max_depth
    → depth id rows ≤ max_depth
    → depth id (row ∷ rows) ≤ max_depth
unfolding depth
depth-∷ row rows id a b = elim (Option-cases row.parent_object_node_id) [
  | inl e ↦ ground (arith, e)
  | inr (p, e) ↦ ground (arith, e)
]

insert_row-IsHierarchy :
    (row : ObjectNodeRow) (t : Tables)
    → str_eq row.id "" ≡ false
    → has_parent row.parent_object_node_id t.object_nodes ≡ true
    → above row.parent_object_node_id t.object_nodes ≤ max_depth
    → IsHierarchy t
    → IsHierarchy (insert_row row t).0
unfolding insert_row
insert_row-IsHierarchy row t i p a v =
    if-rule Leaves (any (λ r. str_eq r.id row.id || same_place r row) t.object_nodes) (λ e. v)
      (λ e. (
        (any-is_found t.object_nodes row e, i, p, v.0),
        (λ id. depth-∷ row t.object_nodes id a (v.1 id)),
        all-∷ row t.object_nodes t.nodes v.2,
      ))

create-IsHierarchy :
    (id : String) (input : CreateObjectNodeInput) (t : Tables)
    → str_eq id "" ≡ false
    → IsHierarchy t
    → IsHierarchy (create id input t).0
unfolding create
create-IsHierarchy id input t i v =
    elim (Option-cases (find_namespace input.namespace_id t.namespaces)) [
      | inl e ↦ rw (create, e) v
      | inr (_, e) ↦ elim (Option-cases input.parent_object_node_id) [
        | inl e' ↦
            rw (create, e, e')
              (insert_row-IsHierarchy _ t i (rw e' refl) (rw e' (ground (arith))) v)
        | inr (p, e') ↦ elim (Option-cases (find_object_node p t.object_nodes)) [
          | inl h ↦ rw (create, e, e', h) v
          | inr (r, h) ↦
              rw (create, e, e', h, compute_depth-depth t.object_nodes p v.0 (ground (arith, h)))
                (if-rule Leaves (leb max_depth (depth p t.object_nodes)) (λ l. v)
                  (λ l.
                    insert_row-IsHierarchy _ t i (rw (e', h) refl) (rw e' (ground (arith, l))) v))
        ]
      ]
    ]

-- Reassigned nodes refer to rows that exist, where the new parent does.
all-reassigned :
    (id : String) (parent : Option String) (rows rows' : List ObjectNodeRow) (nodes : List NodeRow)
    → ((p : Option String)
        → has_parent p rows ≡ true
        → has_parent (reassigned id parent p) rows' ≡ true)
    → all (λ n. has_parent n.object_node_id rows) nodes ≡ true
    → all (λ n. has_parent n.object_node_id rows') (map (move_node id parent) nodes) ≡ true
all-reassigned id parent rows rows' [] h e = refl
all-reassigned id parent rows rows' (n ∷ nodes) h e =
    ground (arith, h n.object_node_id, all-reassigned id parent rows rows' nodes h)

parent-has_parent :
    (rows : List ObjectNodeRow) (id : String) (r : ObjectNodeRow)
    → IsForest rows
    → find_object_node id rows ≡ some r
    → has_parent r.parent_object_node_id rows ≡ true
parent-has_parent rows id r v e = elim (Option-cases r.parent_object_node_id) [
  | inl h ↦ rw h refl
  | inr (p, h) ↦ rw h (parent-is_found rows id p r v e h)
]

has_parent-reassigned :
    (rows : List ObjectNodeRow) (id : String) (parent p : Option String)
    → has_parent parent rows ≡ true
    → has_parent p rows ≡ true
    → has_parent (reassigned id parent p) rows ≡ true
unfolding reassigned
has_parent-reassigned rows id parent p h k =
    if-rule (λ q. has_parent q rows ≡ true) (same_parent p (some id)) (λ e. h) (λ e. k)

delete-IsHierarchy : (id : String) (t : Tables) → IsHierarchy t → IsHierarchy (delete id t).0
unfolding delete
delete-IsHierarchy id t v = elim (Option-cases (find_object_node id t.object_nodes)) [
  | inl e ↦ rw (delete, e) v
  | inr (r, e) ↦
      let parent : Option String = r.parent_object_node_id in
      let h : HasRow id parent t.object_nodes = λ r' e'. ground (arith, e, e') in
      rw (delete, e)
        (if-rule Leaves (conflicts id parent t.object_nodes)
          (λ c. (
            v.0,
            v.1,
            all-reassigned id parent t.object_nodes t.object_nodes t.nodes
                (λ p.
                  has_parent-reassigned t.object_nodes id parent p
                    (parent-has_parent t.object_nodes id r v.0 e))
                v.2,
          ))
          (λ c. (
            removed-IsForest id parent t.object_nodes v.0 h,
            (λ q. ground (arith, depth-removed id parent t.object_nodes q v.0 h, v.1 q)),
            all-reassigned id parent t.object_nodes _ t.nodes
                (λ p. reassigned-has_parent id parent t.object_nodes p v.0 h) v.2,
          )))
]

-- The new ids of the calls, which are UUIDs, are not empty.
abbrev pub has_id : ObjectNodeCall → Bool
has_id (creates id input) = not (str_eq id "")
has_id (deletes id) = true

step-IsHierarchy :
    (call : ObjectNodeCall) (t : Tables)
    → has_id call ≡ true
    → IsHierarchy t
    → IsHierarchy (step call t)
unfolding step
step-IsHierarchy (creates id input) t e v = create-IsHierarchy id input t (ground (arith)) v
step-IsHierarchy (deletes id) t e v = delete-IsHierarchy id t v

-- After any sequence of `create` and `delete`, failed ones included, the new ids being non-empty: the
-- object nodes are a forest no deeper than five, and each variable node stands in an object node that
-- exists or in none, if this was so before.
pub run-IsHierarchy :
    (calls : List ObjectNodeCall) (t : Tables)
    → all has_id calls ≡ true
    → IsHierarchy t
    → IsHierarchy (run calls t)
unfolding run
run-IsHierarchy [] t e v = v
run-IsHierarchy (call ∷ calls) t e v =
    run-IsHierarchy calls (step call t) (ground (arith, e))
      (step-IsHierarchy call t (ground (arith, e)) v)
