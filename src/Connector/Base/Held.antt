-- ===== src/Connector/Base/Held.antt =====
-- src/connectors/core/base-connector.ts: the timers that all connections of a connector hold.
use opcua_light_server.Prelude.{
  ℕ, ◌≡◌, refl, Bool, true, false, ◌||◌, inl, inr, none, some, [], ◌∷◌, arith, String, eq_iff, Dict,
  lookup, insert, delete, HasUniqueKeys, Option-cases, delete-eq_of_lookup,
}
use opcua_light_server.Connector.Types.{Managed, Core, Protocol, KeepsTimers}
use opcua_light_server.Connector.Mappings.{drop_mapping}
use opcua_light_server.Connector.Base.{
  initiate_all, cleanup_all, initiate_if, disconnect_and_cleanup,
}
use opcua_light_server.Connector.Base.Ownership.{
  holds, pending, initiate_if-same, disconnect_and_cleanup-IsTidy, disconnect_and_cleanup-holds,
}

module _ {P X : Type 0} where
  abbrev pub held : Dict (Managed P X) → ℕ → Bool
  held [] t = false
  held ((id, m) ∷ d) t = holds m t || held d t

  pub held-insert_new :
      (id : String) (m : Managed P X) (d : Dict (Managed P X)) (t : ℕ)
      → holds m t ≡ true
      → held (insert id m d) t ≡ true
  unfolding insert
  held-insert_new id m [] t h = ground arith
  held-insert_new id m ((j, n) ∷ d) t h = ground (arith, held-insert_new id m d t h)

  -- What `delete id` takes away is what the connection under `id` held.
  pub held-delete :
      (id : String) (m : Managed P X) (d : Dict (Managed P X)) (t : ℕ)
      → HasUniqueKeys d
      → lookup id d ≡ some m
      → held d t ≡ true
      → holds m t ≡ false
      → held (delete id d) t ≡ true
  unfolding lookup delete
  held-delete id m [] t u e h k = cc
  held-delete id m ((j, n) ∷ d) t u e h k =
      ground (arith, eq_iff j id, delete-eq_of_lookup id d, held-delete id m d t u.1)

  pub held-insert_old :
      (id : String) (m m' : Managed P X) (d : Dict (Managed P X)) (t : ℕ)
      → lookup id d ≡ some m
      → held d t ≡ true
      → holds m t ≡ false
      → held (insert id m' d) t ≡ true
  unfolding lookup insert
  held-insert_old id m m' [] t e h k = cc
  held-insert_old id m m' ((j, n) ∷ d) t e h k = ground (arith, held-insert_old id m m' d t)

  pub held-insert-of_none :
      (id : String) (m : Managed P X) (d : Dict (Managed P X)) (t : ℕ)
      → lookup id d ≡ none
      → held d t ≡ true
      → held (insert id m d) t ≡ true
  unfolding lookup insert
  held-insert-of_none id m [] t e h = cc
  held-insert-of_none id m ((j, n) ∷ d) t e h = ground (arith, held-insert-of_none id m d t)

  -- Dropping a mapping changes neither the timers nor the keys.
  pub drop_mapping-held :
      (id : String) (d d' : Dict (Managed P X)) (t : ℕ)
      → drop_mapping id d ≡ some d'
      → held d' t ≡ held d t
  unfolding drop_mapping
  drop_mapping-held id [] d' t e = cc
  drop_mapping-held id ((j, n) ∷ d) d' t e = elim (Option-cases (drop_mapping id d)) [
    | inl z ↦ ground arith
    | inr (r, z) ↦ ground (arith, drop_mapping-held id d r t z)
  ]

  pub drop_mapping-lookup :
      (id k : String) (d d' : Dict (Managed P X))
      → drop_mapping id d ≡ some d'
      → lookup k d ≡ none
      → lookup k d' ≡ none
  unfolding drop_mapping lookup
  drop_mapping-lookup id k [] d' e h = cc
  drop_mapping-lookup id k ((j, n) ∷ d) d' e h = elim (Option-cases (drop_mapping id d)) [
    | inl z ↦ ground arith
    | inr (r, z) ↦ ground (arith, drop_mapping-lookup id k d r z)
  ]

  pub drop_mapping-HasUniqueKeys :
      (id : String) (d d' : Dict (Managed P X))
      → drop_mapping id d ≡ some d'
      → HasUniqueKeys d
      → HasUniqueKeys d'
  unfolding drop_mapping
  drop_mapping-HasUniqueKeys id [] d' e u = cc
  drop_mapping-HasUniqueKeys id ((j, n) ∷ d) d' e u = elim (Option-cases (drop_mapping id d)) [
    | inl z ↦ ground arith
    | inr (r, z) ↦
        ground (arith, drop_mapping-HasUniqueKeys id d r z u.1, drop_mapping-lookup id j d r z u.0)
  ]

module _ {P X V : Type 0} (p : Protocol P X V) (k : KeepsTimers p) where
  -- `start` sets no timer and releases none.
  pub initiate_all-held :
      (d : Dict (Managed P X)) (c : Core V) (t : ℕ)
      → (pending (initiate_all p d c).1 t ≡ pending c t)
        × (held (initiate_all p d c).0 t ≡ held d t)
  unfolding initiate_all
  initiate_all-held [] c t = (refl, refl)
  initiate_all-held ((id, m) ∷ d) c t = ground (
    arith,
    initiate_if-same p k m.config.enabled m c t,
    initiate_all-held d (initiate_if p m.config.enabled m c).1 t,
  )

  pub cleanup_all-held :
      (d : Dict (Managed P X)) (c : Core V) (t : ℕ)
      → pending (cleanup_all p d c).1 t ≡ true
      → (pending c t ≡ true) × (held d t ≡ false)
  unfolding cleanup_all
  cleanup_all-held [] c t h = (h, refl)
  cleanup_all-held ((id, m) ∷ d) c t h = ground (
    arith,
    cleanup_all-held d (disconnect_and_cleanup p m c).1 t h,
    disconnect_and_cleanup-IsTidy p k m c t,
    disconnect_and_cleanup-holds p k m c t,
  )

  pub cleanup_all-released :
      (d : Dict (Managed P X)) (c : Core V) (t : ℕ) → held (cleanup_all p d c).0 t ≡ false
  unfolding cleanup_all
  cleanup_all-released [] c t = refl
  cleanup_all-released ((id, m) ∷ d) c t = ground (
    arith,
    disconnect_and_cleanup-holds p k m c t,
    cleanup_all-released d (disconnect_and_cleanup p m c).1 t,
  )

  -- The loops keep the keys.
  pub initiate_all-lookup :
      (j : String) (d : Dict (Managed P X)) (c : Core V)
      → lookup j d ≡ none
      → lookup j (initiate_all p d c).0 ≡ none
  unfolding initiate_all lookup
  initiate_all-lookup j [] c h = refl
  initiate_all-lookup j ((id, m) ∷ d) c h =
      ground (arith, initiate_all-lookup j d (initiate_if p m.config.enabled m c).1)

  pub initiate_all-HasUniqueKeys :
      (d : Dict (Managed P X)) (c : Core V) → HasUniqueKeys d → HasUniqueKeys (initiate_all p d c).0
  unfolding initiate_all
  initiate_all-HasUniqueKeys [] c u = tt
  initiate_all-HasUniqueKeys ((id, m) ∷ d) c u =
      let c' = (initiate_if p m.config.enabled m c).1 in
      (initiate_all-lookup id d c' u.0, initiate_all-HasUniqueKeys d c' u.1)

  pub cleanup_all-lookup :
      (j : String) (d : Dict (Managed P X)) (c : Core V)
      → lookup j d ≡ none
      → lookup j (cleanup_all p d c).0 ≡ none
  unfolding cleanup_all lookup
  cleanup_all-lookup j [] c h = refl
  cleanup_all-lookup j ((id, m) ∷ d) c h =
      ground (arith, cleanup_all-lookup j d (disconnect_and_cleanup p m c).1)

  pub cleanup_all-HasUniqueKeys :
      (d : Dict (Managed P X)) (c : Core V) → HasUniqueKeys d → HasUniqueKeys (cleanup_all p d c).0
  unfolding cleanup_all
  cleanup_all-HasUniqueKeys [] c u = tt
  cleanup_all-HasUniqueKeys ((id, m) ∷ d) c u =
      let c' = (disconnect_and_cleanup p m c).1 in
      (cleanup_all-lookup id d c' u.0, cleanup_all-HasUniqueKeys d c' u.1)
