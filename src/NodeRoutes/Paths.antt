-- ===== src/NodeRoutes/Paths.antt =====
-- src/api/routes/nodes.ts: the import finds the object node whose path the export writes.
use opcua_light_server.Prelude.{
  ℕ, zero, suc, ◌+◌, ◌≡◌, refl, ap, ◌∙◌, Bool, true, false, ◌&&◌, not, Option, none, some, List, [],
  ◌∷◌, ◌++◌, any, all, map, length, arith, ◌==◌, String, Text, text_eq, text_eq_iff, str_eq, eq_iff,
  eq_refl, is_empty, is_some, trim, split, split_from, Option-cases, Bool-cases, inl, inr,
}
use mathlib.Core.List.{append_assoc, append-nil}
use opcua_light_server.Db.Tables.{ObjectNodeRow, find_object_node}
use opcua_light_server.Db.ObjectNodes.{same_place, climb}
use opcua_light_server.Db.ObjectNodes.Forest.{
  is_found, IsForest, depth, parent-is_found, climb-depth,
}
use opcua_light_server.Db.ObjectNodes.Reassignment.{any-find, find-id, same_parent_refl}
use opcua_light_server.NodeRoutes.{
  path_parts, join_slashes, get_object_node_path, non_empty, find_child, walk,
  find_object_node_by_path,
}

abbrev pub has_slash : Text → Bool
has_slash = any (λ c. c == b'/')

-- A name that the split, the trimming and the filter of the import leave as it is.
abbrev pub is_plain : Text → Bool
is_plain name = not (has_slash name) && (text_eq (trim name) name && not (is_empty name))

-- The unique constraint: no two object nodes of a namespace have one parent and one name.
abbrev pub AreUnique : List ObjectNodeRow → Type 0
AreUnique [] = Unit
AreUnique (r ∷ rows) = (any (λ s. same_place r s) rows ≡ false) × AreUnique rows

-- The rows of the namespace have plain names, and their parents are in the namespace too.
abbrev pub IsTidy : String → List ObjectNodeRow → Type 0
IsTidy namespace_id rows =
    (id : String) (r : ObjectNodeRow)
    → find_object_node id rows ≡ some r
    → r.namespace_id ≡ namespace_id
    → (is_plain r.name ≡ true)
      × ((p : String) (s : ObjectNodeRow)
          → r.parent_object_node_id ≡ some p
          → find_object_node p rows ≡ some s
          → s.namespace_id ≡ namespace_id)

find_child-find :
    (rows : List ObjectNodeRow) (id : String) (r : ObjectNodeRow)
    → AreUnique rows
    → find_object_node id rows ≡ some r
    → find_child rows r.namespace_id r.parent_object_node_id r.name ≡ some r
unfolding find_child find_object_node
find_child-find [] id r u e = cc
find_child-find (s ∷ rows) id r u e = elim (Bool-cases (str_eq s.id id)) [
  | inl h ↦ ground (
    arith,
    e,
    h,
    eq_refl s.namespace_id,
    (text_eq_iff s.name s.name).1 refl,
    same_parent_refl s.parent_object_node_id,
  )
  | inr h ↦
      ground
        (arith, e, h, u.0, find_child-find rows id r u.1, any-find (λ q. same_place s q) rows id r)
]

-- The parts exist as soon as the loop of `computeDepth` ends.
path_parts-climb :
    (fuel : ℕ) (rows : List ObjectNodeRow) (id : String) (parts : List Text) (d : ℕ)
    → is_some (path_parts fuel rows id parts) ≡ is_some (climb fuel rows id d)
unfolding path_parts climb
path_parts-climb zero rows id parts d = refl
path_parts-climb (suc fuel) rows id parts d = elim (Option-cases (find_object_node id rows)) [
  | inl e ↦ ground (arith, e)
  | inr (r, e) ↦ elim (Option-cases r.parent_object_node_id) [
    | inl h ↦ ground (arith, e, h)
    | inr (p, h) ↦ ground (arith, e, h, path_parts-climb fuel rows p (r.name ∷ parts) (suc d))
  ]
]

id-is_empty :
    (rows : List ObjectNodeRow) (id : String)
    → IsForest rows
    → is_found id rows ≡ true
    → str_eq id "" ≡ false
unfolding find_object_node
id-is_empty [] id v e = ground (arith, e)
id-is_empty (s ∷ rows) id v e = ground (arith, e, v.1, eq_iff s.id id, id-is_empty rows id v.3)

walk-∷ :
    (rows : List ObjectNodeRow) (ns : String) (parent : Option String) (p : Text)
    (parts : List Text) (r : ObjectNodeRow)
    → find_child rows ns parent p ≡ some r
    → walk rows ns parent (p ∷ parts) ≡ walk rows ns (some r.id) parts
unfolding walk
walk-∷ rows ns parent p parts r e = rw (walk, e)

-- Walking the parts of a row from the root is walking the rest from the row.
walk-path_parts :
    (fuel : ℕ) (rows : List ObjectNodeRow) (ns id : String) (r : ObjectNodeRow)
    (parts out : List Text)
    → IsForest rows
    → AreUnique rows
    → IsTidy ns rows
    → find_object_node id rows ≡ some r
    → r.namespace_id ≡ ns
    → path_parts fuel rows id parts ≡ some out
    → walk rows ns none out ≡ walk rows ns (some id) parts
unfolding path_parts
walk-path_parts zero rows ns id r parts out v u h e n p = cc
walk-path_parts (suc fuel) rows ns id r parts out v u h e n p =
    let i : r.id ≡ id = (eq_iff r.id id).0 (find-id rows id r e) in
    let c : find_child rows ns r.parent_object_node_id r.name ≡ some r =
      rw (← n) (find_child-find rows id r u e) in
    let z : str_eq id "" ≡ false = id-is_empty rows id v (ground (arith, e)) in
    elim (Option-cases r.parent_object_node_id) [
      | inl o ↦
          let c' : find_child rows ns none r.name ≡ some r = rw (← o) c in
          let w : walk rows ns none (r.name ∷ parts) ≡ walk rows ns (some id) parts =
            walk-∷ rows ns none r.name parts r c' ∙ ap (λ x. walk rows ns (some x) parts) i in
          ground (arith, e, z, o, p, w, ap (walk rows ns none))
      | inr (q, o) ↦
          let c' : find_child rows ns (some q) r.name ≡ some r = rw (← o) c in
          let w : walk rows ns (some q) (r.name ∷ parts) ≡ walk rows ns (some id) parts =
            walk-∷ rows ns (some q) r.name parts r c' ∙ ap (λ x. walk rows ns (some x) parts) i in
          elim (Option-cases (find_object_node q rows)) [
            | inl x ↦ ground (arith, x, parent-is_found rows id q r v e o)
            | inr (s, x) ↦
                walk-path_parts fuel rows ns q s (r.name ∷ parts) out v u h x
                  ((h id r e n).1 q s o x) (ground (arith, e, z, o, p))
                ∙ w
          ]
    ]

path_parts-plain :
    (fuel : ℕ) (rows : List ObjectNodeRow) (ns id : String) (r : ObjectNodeRow)
    (parts out : List Text)
    → IsForest rows
    → IsTidy ns rows
    → find_object_node id rows ≡ some r
    → r.namespace_id ≡ ns
    → path_parts fuel rows id parts ≡ some out
    → all is_plain parts ≡ true
    → all is_plain out ≡ true
unfolding path_parts
path_parts-plain zero rows ns id r parts out v h e n p a = cc
path_parts-plain (suc fuel) rows ns id r parts out v h e n p a =
    let z : str_eq id "" ≡ false = id-is_empty rows id v (ground (arith, e)) in
    let b : all is_plain (r.name ∷ parts) ≡ true = ground (arith, a, (h id r e n).0) in
    elim (Option-cases r.parent_object_node_id) [
      | inl o ↦ ground (arith, e, z, o, p, b, ap (all is_plain))
      | inr (q, o) ↦ elim (Option-cases (find_object_node q rows)) [
        | inl x ↦ ground (arith, x, parent-is_found rows id q r v e o)
        | inr (s, x) ↦
            path_parts-plain fuel rows ns q s (r.name ∷ parts) out v h x ((h id r e n).1 q s o x)
              (ground (arith, e, z, o, p)) b
      ]
    ]

split_from-slash :
    (current p rest : Text)
    → has_slash p ≡ false
    → split_from b'/' current (p ++ b'/' ∷ rest) ≡ (current ++ p) ∷ split_from b'/' [] rest
unfolding split_from
split_from-slash current [] rest h = rw append-nil
split_from-slash current (c ∷ p) rest h =
    let e : (c == b'/') ≡ false = ground (arith, h) in
    rw e (
      split_from-slash (current ++ c ∷ []) p rest (ground (arith, h))
      ∙ ap (λ q. q ∷ split_from b'/' [] rest) (append_assoc current (c ∷ []) p))

split_from-last :
    (current p : Text) → has_slash p ≡ false → split_from b'/' current p ≡ (current ++ p) ∷ []
unfolding split_from
split_from-last current [] h = rw append-nil
split_from-last current (c ∷ p) h =
    let e : (c == b'/') ≡ false = ground (arith, h) in
    rw e (
      split_from-last (current ++ c ∷ []) p (ground (arith, h))
      ∙ ap (λ q. q ∷ []) (append_assoc current (c ∷ []) p))

split-join_slashes :
    (p : Text) (parts : List Text)
    → all is_plain (p ∷ parts) ≡ true
    → split_from b'/' [] (join_slashes (p ∷ parts)) ≡ p ∷ parts
unfolding join_slashes
split-join_slashes p [] a = split_from-last [] p (ground (arith, a))
split-join_slashes p (q ∷ parts) a =
    split_from-slash [] p (join_slashes (q ∷ parts)) (ground (arith, a))
    ∙ ap (λ l. p ∷ l) (split-join_slashes q parts (ground (arith, a)))

non_empty-trim :
    (parts : List Text) → all is_plain parts ≡ true → non_empty (map trim parts) ≡ parts
unfolding non_empty
non_empty-trim [] a = refl
non_empty-trim (p ∷ parts) a =
    let e : trim p ≡ p = (text_eq_iff (trim p) p).0 (ground (arith, a)) in
    let n : is_empty p ≡ false = ground (arith, a) in
    rw (e, n) (ap (λ l. p ∷ l) (non_empty-trim parts (ground (arith, a))))

parts-join_slashes :
    (parts : List Text)
    → all is_plain parts ≡ true
    → non_empty (map trim (split b'/' (join_slashes parts))) ≡ parts
unfolding split non_empty join_slashes trim
parts-join_slashes [] a = refl
parts-join_slashes (p ∷ parts) a =
    ap (λ l. non_empty (map trim l)) (split-join_slashes p parts a) ∙ non_empty-trim (p ∷ parts) a

-- The object node that the import finds for the path that the export writes.
abbrev pub found_again : List ObjectNodeRow → String → String → Option String
found_again rows namespace_id id = elim (get_object_node_path rows (some id)) [
  | none ↦ none
  | some path ↦ find_object_node_by_path rows namespace_id path
]

-- The path that the export writes for an object node leads the import back to it, in a namespace where
-- each parent is an older object node of the namespace, no two object nodes have one parent and one
-- name, and the names are not empty and have no slash and no outer blanks.
pub found_again_id :
    (rows : List ObjectNodeRow) (namespace_id id : String) (r : ObjectNodeRow)
    → IsForest rows
    → AreUnique rows
    → IsTidy namespace_id rows
    → find_object_node id rows ≡ some r
    → r.namespace_id ≡ namespace_id
    → found_again rows namespace_id id ≡ some id
unfolding get_object_node_path find_object_node_by_path walk
found_again_id rows namespace_id id r v u h e n =
    let fuel : ℕ = suc (length rows) in
    let c : climb fuel rows id 1 ≡ some (0 + depth id rows) =
      climb-depth fuel rows id 0 v (ground (arith, e)) (ground (arith)) in
    elim (Option-cases (path_parts fuel rows id [])) [
      | inl x ↦ ground (arith, x, c, path_parts-climb fuel rows id [] 1)
      | inr (out, x) ↦
          let w : walk rows namespace_id none out ≡ some id =
            walk-path_parts fuel rows namespace_id id r [] out v u h e n x in
          let q : non_empty (map trim (split b'/' (join_slashes out))) ≡ out =
            parts-join_slashes out
              (path_parts-plain fuel rows namespace_id id r [] out v h e n x refl) in
          rw (found_again, get_object_node_path, x) (ap (walk rows namespace_id none) q ∙ w)
    ]
