-- ===== src/Db/Connectors/Consistency.antt =====
-- src/db/repositories/connector-repository.ts: what holds of the connections and mappings after any calls.
use opcua_light_server.Prelude.{
  ◌≡◌, refl, Bool, true, false, ◌&&◌, none, some, List, [], ◌∷◌, arith, String, Text, eq_iff,
  text_eq_iff, is_some, Dict, lookup, has, insert, HasUniqueKeys, lookup-insert, lookup-delete,
  insert-HasUniqueKeys, delete-HasUniqueKeys, Option-cases, Bool-cases, inl, inr, ap, if-rule,
}
use opcua_light_server.Db.Connectors.{
  ConnectionRow, MappingRow, ConnectorTables, UpdateConnectionRequest, updated_connection,
  new_connection, new_mapping, CreateMappingRequest, UpdateMappingRequest, MappingResult, or_else,
  create_connection, update_connection, delete_connection, node_exists, find_mapping, is_node,
  is_address, refers, is_allowed, put_mapping, given, node_error, create_mapping, new_node,
  updated_mapping, update_mapping, delete_mapping, ConnectorCall, creates_connection,
  updates_connection, deletes_connection, creates, updates, deletes, step, run,
}
use opcua_light_server.Db.Connectors.Mappings.{
  IsUnique, is_taken-none, lookup-drop_mappings, drop_mappings-HasUniqueKeys,
}

-- One mapping of a node at most, one mapping of a device address of a connection at most, and each
-- mapping is of a connection and, if of a node, of a node that exists, none of which has an empty id.
abbrev pub IsConsistent : ConnectorTables → Type 0
IsConsistent t =
    HasUniqueKeys t.mappings
    × ((n : String) → IsUnique (is_node n) t.mappings)
    × ((c : String) (a : Text) → IsUnique (is_address c a) t.mappings)
    × ((i : String) (r : MappingRow)
        → lookup i t.mappings ≡ some r
        → (has r.connection_id t.connections && refers r.node_id t) ≡ true)
    × (node_exists "" t ≡ false)

-- A replaced row that is alone with what it passes leaves the test unique.
insert-IsUnique :
    (test : MappingRow → Bool) (id : String) (row : MappingRow) (d : Dict MappingRow)
    → IsUnique test d
    → (test row ≡ true
        → (j : String) (s : MappingRow) → lookup j d ≡ some s
        → test s ≡ true
        → j ≡ id)
    → IsUnique test (insert id row d)
insert-IsUnique test id row d u h i j r s e f p q = elim (Bool-cases (test row)) [
  | inl y ↦ ground (
    arith,
    e,
    f,
    p,
    q,
    ap test,
    lookup-insert id i row d,
    lookup-insert id j row d,
    eq_iff id i,
    eq_iff id j,
    u i j r s,
    h y i r,
    h y j s,
  )
  | inr n ↦ ground (
    arith,
    e,
    f,
    p,
    q,
    ap test,
    n,
    lookup-insert id i row d,
    lookup-insert id j row d,
    eq_iff id i,
    eq_iff id j,
    u i j r s,
  )
]

is_address-same :
    (c : String) (a : Text) (r s : MappingRow)
    → is_address c a r ≡ true
    → is_address c a s ≡ true
    → is_address r.connection_id r.device_address s ≡ true
is_address-same c a r s e f = ground (
  arith,
  e,
  f,
  eq_iff r.connection_id c,
  eq_iff s.connection_id c,
  eq_iff s.connection_id r.connection_id,
  text_eq_iff r.device_address a,
  text_eq_iff s.device_address a,
  text_eq_iff s.device_address r.device_address,
)

-- No mapping of another id has a node of the row.
abbrev IsAlone : String → MappingRow → ConnectorTables → Type 0
IsAlone id row t =
    (n : String) (j : String) (s : MappingRow)
    → is_node n row ≡ true
    → lookup j t.mappings ≡ some s
    → is_node n s ≡ true
    → j ≡ id

put_mapping-IsConsistent :
    (id : String) (row : MappingRow) (t : ConnectorTables)
    → IsConsistent t
    → (is_allowed id row t ≡ true → IsAlone id row t)
    → IsConsistent (put_mapping id row t).0
unfolding put_mapping
put_mapping-IsConsistent id row t v h =
    if-rule {A = ConnectorTables × MappingResult} (λ s. IsConsistent s.0) (is_allowed id row t)
      (λ a. (
        insert-HasUniqueKeys id row t.mappings v.0,
        (λ n. insert-IsUnique (is_node n) id row t.mappings (v.1 n) (λ p j s. h a n j s p)),
        (λ c b. insert-IsUnique (is_address c b) id row t.mappings (v.2 c b) (λ p j s l q.
            is_taken-none id (is_address row.connection_id row.device_address) t.mappings j s v.0
              (v.2 row.connection_id row.device_address) (ground (arith, a)) l
              (is_address-same c b row s p q))),
        (λ i r e. ground (arith, e, a, lookup-insert id i row t.mappings, v.3 i r)),
        v.4,
      ))
      (λ a. v)

-- The check of a node that is given.
node_error-none :
    (id n j : String) (s : MappingRow) (t : ConnectorTables)
    → IsConsistent t
    → node_error id (some n) t ≡ none
    → lookup j t.mappings ≡ some s
    → is_node n s ≡ true
    → j ≡ id
node_error-none id n j s t v e l q =
    is_taken-none id (is_node n) t.mappings j s v.0 (v.1 n) (ground (arith, e)) l q

create-IsAlone :
    (id : String) (request : CreateMappingRequest) (t : ConnectorTables) (row : MappingRow)
    → IsConsistent t
    → node_error id (given request.node_id) t ≡ none
    → row.node_id ≡ request.node_id
    → refers row.node_id t ≡ true
    → IsAlone id row t
create-IsAlone id request t row v e h a n j s p l q = elim (Option-cases request.node_id) [
  | inl r ↦ ground (arith, h, r, p)
  | inr (m, r) ↦ ground (
    arith,
    h,
    r,
    p,
    a,
    v.4,
    eq_iff m n,
    eq_iff m "",
    node_error-none id n j s t v,
    e,
    l,
    q,
    ap (λ x. node_exists x t),
  )
]

abbrev Leaves : ConnectorTables × MappingResult → Type 0
Leaves s = IsConsistent s.0

pub create_mapping-IsConsistent :
    (id : String) (request : CreateMappingRequest) (t : ConnectorTables)
    → IsConsistent t
    → IsConsistent (create_mapping id request t).0
unfolding create_mapping
create_mapping-IsConsistent id request t v =
    if-rule Leaves (has request.connection_id t.connections)
      (λ c. elim (Option-cases (node_error id (given request.node_id) t)) [
        | inr (e, h) ↦ rw h v
        | inl h ↦ rw h (
            if-rule Leaves
              (is_some
                (find_mapping (is_address request.connection_id request.device_address) t.mappings))
              (λ _. v)
              (λ _.
                if-rule Leaves (has id t.mappings) (λ _. v)
                  (λ _. put_mapping-IsConsistent id (new_mapping request) t v (λ a.
                    create-IsAlone id request t (new_mapping request) v h refl
                      (ground (arith, a))))))
      ])
      (λ c. v)

update-IsAlone :
    (id : String) (request : UpdateMappingRequest) (row : MappingRow) (t : ConnectorTables)
    → IsConsistent t
    → lookup id t.mappings ≡ some row
    → node_error id (new_node (given request.node_id) row.node_id) t ≡ none
    → refers (updated_mapping request row).node_id t ≡ true
    → IsAlone id (updated_mapping request row) t
unfolding updated_mapping
update-IsAlone id request row t v e h a n j s p l q = elim (Option-cases request.node_id) [
  | inl r ↦ ground (arith, r, p, e, l, q, v.1 n j id s row)
  | inr (m, r) ↦ elim (Option-cases row.node_id) [
    | inl o ↦ ground (
      arith,
      h,
      r,
      o,
      p,
      a,
      v.4,
      eq_iff m n,
      eq_iff m "",
      node_error-none id n j s t v,
      e,
      l,
      q,
      ap (λ x. node_exists x t),
    )
    | inr (k, o) ↦ ground (
      arith,
      h,
      r,
      o,
      p,
      a,
      v.4,
      eq_iff m n,
      eq_iff m "",
      eq_iff m k,
      eq_iff k n,
      node_error-none id n j s t v,
      e,
      l,
      q,
      ap (λ x. node_exists x t),
      v.1 n j id s row,
    )
  ]
]

update_mapping-IsConsistent :
    (id : String) (request : UpdateMappingRequest) (t : ConnectorTables)
    → IsConsistent t
    → IsConsistent (update_mapping id request t).0
unfolding update_mapping
update_mapping-IsConsistent id request t v = elim (Option-cases (lookup id t.mappings)) [
  | inl e ↦ rw (update_mapping, e) v
  | inr (row, e) ↦
      elim (Option-cases (node_error id (new_node (given request.node_id) row.node_id) t)) [
        | inr (x, h) ↦ rw (update_mapping, e, h) v
        | inl h ↦
            rw (update_mapping, e, h)
              (if-rule Leaves _ (λ _. v)
                (λ _.
                  put_mapping-IsConsistent id (updated_mapping request row) t v
                    (λ a. update-IsAlone id request row t v e h (ground (arith, a)))))
      ]
]

delete_mapping-IsConsistent :
    (id : String) (t : ConnectorTables) → IsConsistent t → IsConsistent (delete_mapping id t).0
unfolding delete_mapping
delete_mapping-IsConsistent id t v =
    if-rule Leaves (has id t.mappings)
      (λ _. (
        delete-HasUniqueKeys id t.mappings v.0,
        (λ n i j r s e f. ground (
          arith,
          e,
          f,
          lookup-delete id i t.mappings,
          lookup-delete id j t.mappings,
          v.1 n i j r s,
        )),
        (λ c a i j r s e f. ground (
          arith,
          e,
          f,
          lookup-delete id i t.mappings,
          lookup-delete id j t.mappings,
          v.2 c a i j r s,
        )),
        (λ i r e. ground (arith, e, lookup-delete id i t.mappings, v.3 i r)),
        v.4,
      ))
      (λ _. v)

-- More connections change nothing.
connections-IsConsistent :
    (connections : Dict ConnectionRow) (t : ConnectorTables)
    → ((c : String) → has c t.connections ≡ true → has c connections ≡ true)
    → IsConsistent t
    → IsConsistent (record t { connections = connections })
connections-IsConsistent connections t h v =
    (v.0, v.1, v.2, (λ i r e. ground (arith, h r.connection_id, v.3 i r e)), v.4)

delete_connection-IsConsistent :
    (id : String) (t : ConnectorTables)
    → IsConsistent t
    → IsConsistent (or_else (delete_connection id t) t)
unfolding delete_connection
delete_connection-IsConsistent id t v =
    if-rule (λ o. IsConsistent (or_else o t)) (has id t.connections)
      (λ _. (
        drop_mappings-HasUniqueKeys id t.mappings v.0,
        (λ n i j r s e f.
            v.1 n i j r s (lookup-drop_mappings id t.mappings i r v.0 e).0
              (lookup-drop_mappings id t.mappings j s v.0 f).0),
        (λ c a i j r s e f.
            v.2 c a i j r s (lookup-drop_mappings id t.mappings i r v.0 e).0
              (lookup-drop_mappings id t.mappings j s v.0 f).0),
        (λ i r e. ground (
          arith,
          lookup-drop_mappings id t.mappings i r v.0 e,
          v.3 i r,
          eq_iff id r.connection_id,
          eq_iff r.connection_id id,
          lookup-delete id r.connection_id t.connections,
        )),
        v.4,
      ))
      (λ _. v)

update_connection-IsConsistent :
    (id : String) (request : UpdateConnectionRequest) (t : ConnectorTables)
    → IsConsistent t
    → IsConsistent (or_else (update_connection id request t) t)
unfolding update_connection
update_connection-IsConsistent id request t v = elim (Option-cases (lookup id t.connections)) [
  | inl e ↦ rw (update_connection, e) v
  | inr (row, e) ↦
      rw (update_connection, e)
        (connections-IsConsistent (insert id (updated_connection request row) t.connections) t
          (λ c h.
            ground (arith, h, lookup-insert id c (updated_connection request row) t.connections))
          v)
]

pub step-IsConsistent :
    (call : ConnectorCall) (t : ConnectorTables) → IsConsistent t → IsConsistent (step call t)
unfolding step create_connection
step-IsConsistent (creates_connection id request) t v =
    if-rule (λ o. IsConsistent (or_else o t)) (has id t.connections) (λ _. v)
      (λ _.
        connections-IsConsistent (insert id (new_connection request) t.connections) t
          (λ c h. ground (arith, h, lookup-insert id c (new_connection request) t.connections)) v)
step-IsConsistent (updates_connection id request) t v =
    update_connection-IsConsistent id request t v
step-IsConsistent (deletes_connection id) t v = delete_connection-IsConsistent id t v
step-IsConsistent (creates id request) t v = create_mapping-IsConsistent id request t v
step-IsConsistent (updates id request) t v = update_mapping-IsConsistent id request t v
step-IsConsistent (deletes id) t v = delete_mapping-IsConsistent id t v

-- After any calls on connections and mappings, refused ones and exceptions included: no node and no
-- device address of a connection has two mappings, and each mapping is of a connection and, if of a
-- node, of a node that exists, if this was so before and no node has an empty id.
pub run-IsConsistent :
    (calls : List ConnectorCall) (t : ConnectorTables) → IsConsistent t → IsConsistent (run calls t)
unfolding run
run-IsConsistent [] t v = v
run-IsConsistent (call ∷ calls) t v =
    run-IsConsistent calls (step call t) (step-IsConsistent call t v)
