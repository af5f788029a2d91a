-- ===== src/Db/Connectors/Mappings.antt =====
-- src/db/repositories/connector-repository.ts: the dictionary of the mappings.
use opcua_light_server.Prelude.{
  ◌≡◌, Bool, true, false, none, some, [], ◌∷◌, arith, String, str_eq, eq_iff, Dict, lookup,
  HasUniqueKeys, Option-cases, inl, inr, ap, if-rule,
}
use opcua_light_server.Db.Connectors.{MappingRow, find_mapping, is_taken, drop_mappings}

pub find_mapping-none :
    (test : MappingRow → Bool) (d : Dict MappingRow) (i : String) (r : MappingRow)
    → find_mapping test d ≡ none
    → lookup i d ≡ some r
    → test r ≡ false
unfolding find_mapping lookup
find_mapping-none test [] i r e h = cc
find_mapping-none test ((j, s) ∷ d) i r e h = ground (arith, ap test, find_mapping-none test d i r)

pub find_mapping-some :
    (test : MappingRow → Bool) (d : Dict MappingRow) (i : String) (r : MappingRow)
    → HasUniqueKeys d
    → find_mapping test d ≡ some (i, r)
    → (lookup i d ≡ some r) × (test r ≡ true)
unfolding find_mapping lookup
find_mapping-some test [] i r u e = cc
find_mapping-some test ((j, s) ∷ d) i r u e =
    ground (arith, ap test, eq_iff j i, find_mapping-some test d i r u.1, u.0)

-- No two mappings pass the test.
abbrev pub IsUnique : (MappingRow → Bool) → Dict MappingRow → Type 0
IsUnique test d =
    (i j : String) (r s : MappingRow)
    → lookup i d ≡ some r
    → lookup j d ≡ some s
    → test r ≡ true
    → test s ≡ true
    → i ≡ j

pub is_taken-none :
    (id : String) (test : MappingRow → Bool) (d : Dict MappingRow) (j : String) (s : MappingRow)
    → HasUniqueKeys d
    → IsUnique test d
    → is_taken id test d ≡ false
    → lookup j d ≡ some s
    → test s ≡ true
    → j ≡ id
is_taken-none id test d j s u q e l h = elim (Option-cases (find_mapping test d)) [
  | inl n ↦ ground (arith, h, find_mapping-none test d j s n l)
  | inr (p, n) ↦
      let f : (lookup p.0 d ≡ some p.1) × (test p.1 ≡ true) =
        find_mapping-some test d p.0 p.1 u n in
      ground (arith, e, n, eq_iff p.0 id, q p.0 j p.1 s f.0 l f.1 h)
]

pub lookup-drop_mappings :
    (c : String) (d : Dict MappingRow) (i : String) (r : MappingRow)
    → HasUniqueKeys d
    → lookup i (drop_mappings c d) ≡ some r
    → (lookup i d ≡ some r) × (str_eq r.connection_id c ≡ false)
unfolding drop_mappings lookup
lookup-drop_mappings c [] i r u e = cc
lookup-drop_mappings c ((j, s) ∷ d) i r u e =
    ground (arith, eq_iff j i, lookup-drop_mappings c d i r u.1, u.0)

pub drop_mappings-HasUniqueKeys :
    (c : String) (d : Dict MappingRow) → HasUniqueKeys d → HasUniqueKeys (drop_mappings c d)
unfolding drop_mappings lookup
drop_mappings-HasUniqueKeys c [] u = tt
drop_mappings-HasUniqueKeys c ((j, s) ∷ d) u = elim (Option-cases (lookup j (drop_mappings c d))) [
  | inl e ↦
      if-rule HasUniqueKeys (str_eq s.connection_id c) (λ _. drop_mappings-HasUniqueKeys c d u.1)
        (λ _. (e, drop_mappings-HasUniqueKeys c d u.1))
  | inr (r, e) ↦ ground (arith, u.0, lookup-drop_mappings c d j r u.1 e)
]
