-- ===== src/Db/ObjectNodes.antt =====
-- src/db/repositories/object-node-repository.ts: the object nodes of the address space.
-- `none` as the result of a loop says that its fuel did not suffice, where the source would not end.
pub mod Forest
pub mod Removal
pub mod Hierarchy
pub mod Reassignment
pub mod Tests
use opcua_light_server.Prelude.{
  ℕ, zero, suc, Bool, true, false, ◌&&◌, ◌||◌, not, Option, none, some, List, [], ◌∷◌, any, map,
  length, leb, String, Text, text_eq, str_eq, is_some, if◌then◌else◌,
}
use opcua_light_server.Db.Tables.{ObjectNodeRow, NodeRow, Tables, find_namespace, find_object_node}

abbrev pub max_depth : ℕ
max_depth = 5

pub record CreateObjectNodeInput : Type 0 where
  pub namespace_id : String
  pub parent_object_node_id : Option String
  pub name : Text

pub data ObjectNodeError : Type 0 where
  no_namespace no_parent too_deep duplicate not_found reassignment_conflict endless :
      ObjectNodeError

pub data Outcome : Type 0 where
  created : ObjectNodeRow → Outcome
  deleted : Outcome
  failed : ObjectNodeError → Outcome

-- The loop of `computeDepth`; an empty id ends it.
unfoldable pub climb : ℕ → List ObjectNodeRow → String → ℕ → Option ℕ
climb zero rows id depth = none
climb (suc fuel) rows id depth =
    if str_eq id "" then some depth else elim (find_object_node id rows) [
      | none ↦ some depth
      | some r ↦ elim r.parent_object_node_id [
        | none ↦ some depth
        | some parent ↦ climb fuel rows parent (suc depth)
      ]
    ]

-- One round for each row, and one for the last test.
unfoldable pub compute_depth : List ObjectNodeRow → String → Option ℕ
unfolding climb
compute_depth rows id = climb (suc (length rows)) rows id 1

abbrev pub same_parent : Option String → Option String → Bool
same_parent none none = true
same_parent none (some q) = false
same_parent (some p) none = false
same_parent (some p) (some q) = str_eq p q

-- `UNIQUE(namespace_id, parent_object_node_id, name)`, and the partial index for root nodes.
abbrev pub same_place : ObjectNodeRow → ObjectNodeRow → Bool
same_place r s =
    str_eq r.namespace_id s.namespace_id
    && same_parent r.parent_object_node_id s.parent_object_node_id
    && text_eq r.name s.name

-- The `INSERT`, which the primary key and the unique constraints can refuse.
unfoldable pub insert_row : ObjectNodeRow → Tables → Tables × Outcome
insert_row row t =
    if any (λ r. str_eq r.id row.id || same_place r row) t.object_nodes
    then (t, failed duplicate)
    else (record t { object_nodes = row ∷ t.object_nodes }, created row)

-- `id` is the new UUID.
unfoldable pub create : String → CreateObjectNodeInput → Tables → Tables × Outcome
unfolding find_namespace find_object_node compute_depth insert_row
create id input t =
    let row : ObjectNodeRow = record {
      id = id;
      namespace_id = input.namespace_id;
      parent_object_node_id = input.parent_object_node_id;
      name = input.name;
    } in
    elim (find_namespace input.namespace_id t.namespaces) [
      | none ↦ (t, failed no_namespace)
      | some namespace ↦ elim input.parent_object_node_id [
        | none ↦ insert_row row t
        | some parent ↦ elim (find_object_node parent t.object_nodes) [
          | none ↦ (t, failed no_parent)
          | some r ↦ elim (compute_depth t.object_nodes parent) [
            | none ↦ (t, failed endless)
            | some depth ↦ if leb max_depth depth then (t, failed too_deep) else insert_row row t
          ]
        ]
      ]
    ]

-- `UPDATE … SET parent = ? WHERE parent = id`, of one row.
unfoldable pub reassigned : String → Option String → Option String → Option String
reassigned id parent p = if same_parent p (some id) then parent else p

abbrev pub move : String → Option String → ObjectNodeRow → ObjectNodeRow
move id parent r = record r { parent_object_node_id = reassigned id parent r.parent_object_node_id }

abbrev pub move_node : String → Option String → NodeRow → NodeRow
move_node id parent n = record n { object_node_id = reassigned id parent n.object_node_id }

-- A moved row would stand where a row is that stays.
unfoldable pub conflicts : String → Option String → List ObjectNodeRow → Bool
conflicts id parent rows =
    any
      (λ r.
        same_parent r.parent_object_node_id (some id)
        && any
            (λ s.
              not (same_parent s.parent_object_node_id (some id))
              && same_place s (move id parent r))
            rows)
      rows

-- `DELETE … WHERE id = ?`
unfoldable pub drop_row : String → List ObjectNodeRow → List ObjectNodeRow
drop_row id [] = []
drop_row id (r ∷ rows) = if str_eq r.id id then drop_row id rows else r ∷ drop_row id rows

-- The three statements stand in no transaction: what precedes one that fails remains.
unfoldable pub delete : String → Tables → Tables × Outcome
unfolding find_object_node conflicts drop_row
delete id t = elim (find_object_node id t.object_nodes) [
  | none ↦ (t, failed not_found)
  | some r ↦
      let parent = r.parent_object_node_id in
      let t₁ : Tables = record t { nodes = map (move_node id parent) t.nodes } in
      if conflicts id parent t.object_nodes
      then (t₁, failed reassignment_conflict)
      else (record t₁ { object_nodes = drop_row id (map (move id parent) t.object_nodes) }, deleted)
]

pub data ObjectNodeCall : Type 0 where
  creates : String → CreateObjectNodeInput → ObjectNodeCall
  deletes : String → ObjectNodeCall

unfoldable pub step : ObjectNodeCall → Tables → Tables
unfolding create delete
step (creates id input) t = (create id input t).0
step (deletes id) t = (delete id t).0

unfoldable pub run : List ObjectNodeCall → Tables → Tables
unfolding step
run [] t = t
run (call ∷ calls) t = run calls (step call t)
