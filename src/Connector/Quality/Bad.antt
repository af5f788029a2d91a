-- ===== src/Connector/Quality/Bad.antt =====
-- src/connectors/core/base-connector.ts: what a lost connection does to the cached values.
use opcua_light_server.Prelude.{
  ℕ, ◌≡◌, refl, Bool, true, false, Option, none, some, List, [], ◌∷◌, String, str_eq, eq_iff,
  eq_refl, All, Dict, lookup, lookup-insert, Option-cases, Bool-cases, inl, inr, ◌∙◌,
}
use opcua_light_server.Connector.Types.{Mapping, Quality, good, bad, CurrentValue}
use opcua_light_server.Connector.Quality.{requalify, requalify_all}

module _ {V : Type 0} where
  abbrev pub is_bad : Option (CurrentValue V) → Bool
  is_bad none = false
  is_bad (some cv) = elim cv.quality [ bad ↦ true | good ↦ false ]

  requalify-is_bad :
      (now : ℕ) (cid : String) (mapping : Mapping) (cache : Dict (CurrentValue V))
      → is_bad (lookup mapping.id (requalify bad now cid mapping (lookup mapping.id cache) cache))
        ≡ true
  unfolding requalify
  requalify-is_bad now cid mapping cache = elim (Option-cases (lookup mapping.id cache)) [
    | inl e ↦ rw (e, requalify, lookup-insert, eq_refl mapping.id) refl
    | inr (cv, e) ↦ rw (e, requalify, lookup-insert, eq_refl mapping.id) refl
  ]

  -- The entry of `mapping` is written, and no other.
  lookup-requalify :
      (q : Quality) (now : ℕ) (cid j : String) (mapping : Mapping) (cache : Dict (CurrentValue V))
      → str_eq mapping.id j ≡ false
      → lookup j (requalify q now cid mapping (lookup mapping.id cache) cache) ≡ lookup j cache
  unfolding requalify
  lookup-requalify q now cid j mapping cache e = elim (Option-cases (lookup mapping.id cache)) [
    | inr (cv, f) ↦ rw (f, requalify, lookup-insert, e) refl
    | inl f ↦ absent q f
  ]
    where
      absent :
          (q : Quality)
          → lookup mapping.id cache ≡ none
          → lookup j (requalify q now cid mapping (lookup mapping.id cache) cache) ≡ lookup j cache
      absent good f = rw (f, requalify) refl
      absent bad f = rw (f, requalify, lookup-insert, e) refl

  requalify_all-stays_bad :
      (now : String → ℕ) (cid j : String) (mappings : List Mapping) (cache : Dict (CurrentValue V))
      → is_bad (lookup j cache) ≡ true
      → is_bad (lookup j (requalify_all bad now cid mappings cache)) ≡ true
  unfolding requalify_all
  requalify_all-stays_bad now cid j [] cache h = h
  requalify_all-stays_bad now cid j (mapping ∷ rest) cache h =
      requalify_all-stays_bad now cid j rest _ (elim (Bool-cases (str_eq mapping.id j)) [
        | inl e ↦
            rw (← (eq_iff mapping.id j).0 e) (requalify-is_bad (now mapping.id) cid mapping cache)
        | inr e ↦ rw (lookup-requalify bad (now mapping.id) cid j mapping cache e) h
      ])

  -- After a connection is lost, each of its mappings has a cached value of quality `bad`, whether it
  -- had one before or not.
  pub requalify_all-is_bad :
      (now : String → ℕ) (cid : String) (mappings : List Mapping) (cache : Dict (CurrentValue V))
      → All (λ mp. is_bad (lookup mp.id (requalify_all bad now cid mappings cache)) ≡ true) mappings
  unfolding requalify_all
  requalify_all-is_bad now cid [] cache = tt
  requalify_all-is_bad now cid (mapping ∷ rest) cache =
      let cache' = requalify bad (now mapping.id) cid mapping (lookup mapping.id cache) cache in
      (
        requalify_all-stays_bad now cid mapping.id rest cache'
            (requalify-is_bad (now mapping.id) cid mapping cache),
        requalify_all-is_bad now cid rest cache',
      )

  -- A quality update for a list of mappings, whatever the quality, changes no cached value under
  -- an id that none of them has.
  pub requalify_all-other :
      (q : Quality) (now : String → ℕ) (cid j : String) (mappings : List Mapping)
      (cache : Dict (CurrentValue V))
      → All (λ mp. str_eq mp.id j ≡ false) mappings
      → lookup j (requalify_all q now cid mappings cache) ≡ lookup j cache
  unfolding requalify_all
  requalify_all-other q now cid j [] cache h = refl
  requalify_all-other q now cid j (mapping ∷ rest) cache h =
      requalify_all-other q now cid j rest _ h.1
      ∙ lookup-requalify q (now mapping.id) cid j mapping cache h.0
