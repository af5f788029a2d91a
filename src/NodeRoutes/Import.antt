-- ===== src/NodeRoutes/Import.antt =====
-- src/api/routes/nodes.ts: what an import of rows creates and reports.
use opcua_light_server.Prelude.{
  ℕ, suc, ◌≡◌, ◌⊎◌, refl, ◌&&◌, not, Option, none, true, some, List, [], ◌∷◌, any, length, ltb,
  arith, String, Text, trim, text_eq, is_empty, is_some, Option-cases, inl, inr, if-rule,
}
use opcua_light_server.Csv.{parse_csv_line}
use opcua_light_server.Db.Tables.{NodeRow, Tables}
use opcua_light_server.Db.Nodes.{
  CreateNodeRequest, NodeResult, create, insert_node, validate_create, supported_data_types,
  is_named, fits, new_node,
}
use opcua_light_server.NodeRoutes.{
  RowError, RowOutcome, imported, refused, aborted, RowResult, outcome_of, to_request, import_row,
  import_rows, find_namespace_by_name, find_object_node_by_path, cell,
}

-- The node of a row with these cells: its id, its name and its data type are the new id, the first and
-- the fourth cell.
abbrev pub IsMadeOf : String → List Text → NodeRow → Type 0
IsMadeOf id [] n = ⊥
IsMadeOf id (c₀ ∷ []) n = ⊥
IsMadeOf id (c₀ ∷ c₁ ∷ []) n = ⊥
IsMadeOf id (c₀ ∷ c₁ ∷ c₂ ∷ []) n = ⊥
IsMadeOf id (c₀ ∷ c₁ ∷ c₂ ∷ c₃ ∷ cells) n =
    (n.id ≡ id) × (n.name ≡ trim c₀) × (n.data_type ≡ trim c₃)

-- The results of the rows from number `i`, and the nodes before and after them: the results bear the
-- rows' numbers in order; a success adds the row's node, and an error adds nothing.
abbrev pub AreReported :
    (ℕ → String) → ℕ → List Text → List RowResult → List NodeRow → List NodeRow → Type 0
AreReported ids i [] [] before after = after ≡ before
AreReported ids i [] (r ∷ results) before after = ⊥
AreReported ids i (l ∷ lines) [] before after = ⊥
AreReported ids i (l ∷ lines) (r ∷ results) before after =
    (r.row ≡ i)
    × (((r.error ≡ none)
          × ((n : NodeRow) × IsMadeOf (ids i) (parse_csv_line l) n
              × AreReported ids (suc i) lines results (n ∷ before) after))
        ⊎ ((is_some r.error ≡ true) × AreReported ids (suc i) lines results before after))

AreReported-before :
    (ids : ℕ → String) (i : ℕ) (lines : List Text) (results : List RowResult)
    (before before' after : List NodeRow)
    → before ≡ before'
    → AreReported ids i lines results before after
    → AreReported ids i lines results before' after
AreReported-before ids i lines results before before' after e h = rw (← e) h

-- What a creation, and a row, add to the nodes.
abbrev Adds : String → Text → Text → Tables → Tables × RowOutcome → Type 0
Adds id name data_type t s =
    (s.1 ≡ imported
      → (n : NodeRow) × (s.0.nodes ≡ n ∷ t.nodes)
        × (n.id ≡ id)
        × (n.name ≡ name)
        × (n.data_type ≡ data_type))
    × ((e : RowError) → s.1 ≡ refused e → s.0.nodes ≡ t.nodes)

refused-Adds :
    (id : String) (name data_type : Text) (t : Tables) (e : RowError)
    → Adds id name data_type t (t, refused e)
refused-Adds id name data_type t e = ((λ h. absurd (ground (arith, h))), (λ x h. refl))

RowOutcome-cases :
    (x : RowOutcome) → (x ≡ imported) ⊎ (((e : RowError) × (x ≡ refused e)) ⊎ (x ≡ aborted))
RowOutcome-cases imported = inl refl
RowOutcome-cases (refused e) = inr (inl (e, refl))
RowOutcome-cases aborted = inr (inr refl)

module _ {J : Type 0} (parse : Text → Option J) (text : Text → J) (stringify : J → Text) where
  create-Adds :
      (id : String) (request : CreateNodeRequest J) (t : Tables)
      → let s = create stringify id request t in
        Adds id request.name request.data_type t (s.0, outcome_of s.1)
  unfolding create insert_node
  create-Adds id request t =
      let P : Tables × NodeResult → Type 0 =
        λ s. Adds id request.name request.data_type t (s.0, outcome_of s.1) in
      if-rule P (is_empty (validate_create stringify request))
        (λ _.
          if-rule P (any (is_named request.name request.namespace_id) t.nodes)
            (λ _. refused-Adds _ _ _ t _)
            (λ _.
              if-rule P (fits (new_node stringify id request) t.nodes t)
                (λ _. (
                  (λ _. (new_node stringify id request, refl, refl, refl, refl)),
                  (λ x h. absurd (ground (arith, h))),
                ))
                (λ _. ((λ h. absurd (ground (arith, h))), (λ x h. refl)))))
        (λ _. refused-Adds _ _ _ t _)

  import_row-Adds :
      (id : String) (cells : List Text) (t : Tables)
      → Adds id
          (trim (cell 0 cells))
          (trim (cell 3 cells))
          t
          (import_row parse text stringify id cells t)
  unfolding import_row
  import_row-Adds id cells t =
      let P : Tables × RowOutcome → Type 0 =
        Adds id (trim (cell 0 cells)) (trim (cell 3 cells)) t in
      if-rule P (ltb (length cells) 4) (λ _. refused-Adds _ _ _ t _)
        (λ _.
          if-rule P (is_empty (trim (cell 0 cells))) (λ _. refused-Adds _ _ _ t _)
            (λ _. elim (Option-cases (find_namespace_by_name (trim (cell 1 cells)) t.namespaces)) [
              | inl e ↦ rw e (refused-Adds _ _ _ t _)
              | inr (n, e) ↦
                  let object_node_id : Option String =
                    find_object_node_by_path t.object_nodes n (trim (cell 2 cells)) in
                  rw e (
                    if-rule P
                      (not (any (λ s. text_eq s (trim (cell 3 cells))) supported_data_types))
                      (λ _. refused-Adds _ _ _ t _)
                      (λ _.
                        if-rule P
                          (not (is_empty (trim (cell 2 cells))) && not (is_some object_node_id))
                          (λ _. refused-Adds _ _ _ t _)
                          (λ _.
                            create-Adds id (to_request parse text stringify n object_node_id cells)
                              t)))
            ]))

  import_row-short :
      (id : String) (cells : List Text) (t : Tables)
      → ltb (length cells) 4 ≡ true
      → ¬ ((import_row parse text stringify id cells t).1 ≡ imported)
  unfolding import_row
  import_row-short id cells t h e = ground (arith, h, e)

  import_row-IsMadeOf :
      (id : String) (cells : List Text) (t : Tables)
      → (import_row parse text stringify id cells t).1 ≡ imported
      → (n : NodeRow) × ((import_row parse text stringify id cells t).0.nodes ≡ n ∷ t.nodes)
        × IsMadeOf id cells n
  unfolding cell
  import_row-IsMadeOf id [] t e = absurd (import_row-short id [] t refl e)
  import_row-IsMadeOf id (c₀ ∷ []) t e = absurd (import_row-short id (c₀ ∷ []) t refl e)
  import_row-IsMadeOf id (c₀ ∷ c₁ ∷ []) t e = absurd (import_row-short id (c₀ ∷ c₁ ∷ []) t refl e)
  import_row-IsMadeOf id (c₀ ∷ c₁ ∷ c₂ ∷ []) t e =
      absurd (import_row-short id (c₀ ∷ c₁ ∷ c₂ ∷ []) t refl e)
  import_row-IsMadeOf id (c₀ ∷ c₁ ∷ c₂ ∷ c₃ ∷ cells) t e =
      let (n, h, i, m, d) = (import_row-Adds id (c₀ ∷ c₁ ∷ c₂ ∷ c₃ ∷ cells) t).0 e in
      (n, h, (i, m, d))

  -- An import of data rows, numbered from `i`, that no exception ends: the results bear the numbers of
  -- the rows in their order; each row with a success became one new variable node, with the row's new
  -- id and the name and the data type of its first and fourth cell, and no other row changed the
  -- variable nodes.
  pub import_rows-nodes :
      (ids : ℕ → String) (i : ℕ) (lines : List Text) (t : Tables) (results : List RowResult)
      → (import_rows parse text stringify ids i lines t).1 ≡ some results
      → AreReported ids i lines results t.nodes
          (import_rows parse text stringify ids i lines t).0.nodes
  unfolding import_rows
  import_rows-nodes ids i [] t results e = let q : results ≡ [] = ground (arith, e) in rw q refl
  import_rows-nodes ids i (l ∷ lines) t results e =
      let first : Tables × RowOutcome =
        import_row parse text stringify (ids i) (parse_csv_line l) t in
      elim (Option-cases (import_rows parse text stringify ids (suc i) lines first.0).1) [
        | inl x ↦ elim (RowOutcome-cases first.1) [
          | inl o ↦ absurd (ground (arith, e, x, o))
          | inr (inl (r, o)) ↦ absurd (ground (arith, e, x, o))
          | inr (inr o) ↦ absurd (ground (arith, e, x, o))
        ]
        | inr (rs, x) ↦
            let h = import_rows-nodes ids (suc i) lines first.0 rs x in
            elim (RowOutcome-cases first.1) [
              | inl o ↦
                  let q : results ≡ record { row = i; error = none } ∷ rs =
                    ground (arith, e, x, o) in
                  let (n, m, made) = import_row-IsMadeOf (ids i) (parse_csv_line l) t o in
                  rw (import_rows, q, o)
                    (refl, inl (refl, (n, made, AreReported-before ids (suc i) lines rs _ _ _ m h)))
              | inr (inl (r, o)) ↦
                  let q : results ≡ record { row = i; error = some r } ∷ rs =
                    ground (arith, e, x, o) in
                  let m : first.0.nodes ≡ t.nodes =
                    (import_row-Adds (ids i) (parse_csv_line l) t).1 r o in
                  rw (import_rows, q, o)
                    (refl, inr (refl, AreReported-before ids (suc i) lines rs _ _ _ m h))
              | inr (inr o) ↦ absurd (ground (arith, e, x, o))
            ]
      ]
