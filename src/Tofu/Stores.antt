-- ===== src/Tofu/Stores.antt =====
-- src/tofu-manager/tofu-manager.ts: where the certificates are after the operations.
use opcua_light_server.Prelude.{
  ◌≡◌, ◌⊎◌, inl, inr, ap, if◌then◌else◌, Bool, Option, none, some, String, Text, Dict, arith,
  insert, lookup-insert, lookup-delete, Option-cases, str_eq,
}
use opcua_light_server.Process.Manager.{Manager, Env}
use opcua_light_server.Tofu.{
  TofuManager, find, unlink, signal_reload, delete_certificate, reject_certificate,
  trust_certificate,
}

module _ {F : Type 0} where
  -- No certificate is both trusted and rejected.
  abbrev pub IsDisjoint : TofuManager F → Type 0
  IsDisjoint s =
      (id : String) → (find id s.trusted_store ≡ none) ⊎ (find id s.rejected_store ≡ none)

  pub find-unlink :
      (k j : String) (d : Option (Dict F))
      → find j (unlink k d) ≡ (if str_eq k j then none else find j d)
  unfolding find unlink
  find-unlink k j none = ground arith
  find-unlink k j (some d) = lookup-delete k j d

  -- A store where a file has been put.
  pub find-insert :
      (k j : String) (f : F) (d : Dict F)
      → find j (some (insert k f d)) ≡ (if str_eq k j then some f else find j (some d))
  unfolding find
  find-insert k j f d = lookup-insert k j f d

  pub signal_reload-trusted :
      (env : Env) (accepts : Option Bool) (m : Manager) (s : TofuManager F)
      → ((signal_reload env accepts m s).0.trusted_store ≡ s.trusted_store)
        × ((signal_reload env accepts m s).0.rejected_store ≡ s.rejected_store)
  unfolding signal_reload
  signal_reload-trusted env accepts m s = ground arith

  pub signal_reload-IsDisjoint :
      (env : Env) (accepts : Option Bool) (m : Manager) (s : TofuManager F)
      → IsDisjoint s
      → IsDisjoint (signal_reload env accepts m s).0
  signal_reload-IsDisjoint env accepts m s v j =
      let e = signal_reload-trusted env accepts m s in rw (e.0, e.1) (v j)

  module _ (env : Env) (accepts : Option Bool) (m : Manager) (fault : Option Text) (id : String)
      (s : TofuManager F) where
    pub reject_certificate-IsDisjoint :
        IsDisjoint s → IsDisjoint (reject_certificate env accepts m fault id s).0
    unfolding reject_certificate
    reject_certificate-IsDisjoint v = elim (Option-cases (find id s.trusted_store)) [
      | inl e ↦ rw (e, reject_certificate) v
      | inr (f, e) ↦ elim (Option-cases fault) [
        | inr (message, h) ↦ rw (e, h, reject_certificate) v
        | inl h ↦ elim (Option-cases s.rejected_store) [
          | inl d ↦ rw (e, h, d, reject_certificate) v
          | inr (files, d) ↦
              rw (e, h, d, reject_certificate)
                (signal_reload-IsDisjoint env accepts m _ (λ j. ground (
                  arith,
                  find-unlink id j s.trusted_store,
                  find-insert id j f files,
                  v j,
                  d,
                  ap (find j) d,
                )))
        ]
      ]
    ]

    pub trust_certificate-IsDisjoint :
        IsDisjoint s → IsDisjoint (trust_certificate env accepts m fault id s).0
    unfolding trust_certificate
    trust_certificate-IsDisjoint v = elim (Option-cases (find id s.rejected_store)) [
      | inl e ↦ rw (e, trust_certificate) v
      | inr (f, e) ↦ elim (Option-cases (find id s.trusted_store)) [
        | inr (g, h) ↦ rw (e, h, trust_certificate) v
        | inl h ↦ elim (Option-cases fault) [
          | inr (message, a) ↦ rw (e, h, a, trust_certificate) v
          | inl a ↦ elim (Option-cases s.trusted_store) [
            | inl d ↦ rw (e, h, a, d, trust_certificate) v
            | inr (files, d) ↦
                rw (e, h, a, d, trust_certificate)
                  (signal_reload-IsDisjoint env accepts m _ (λ j. ground (
                    arith,
                    find-unlink id j s.rejected_store,
                    find-insert id j f files,
                    v j,
                    ap (find j) d,
                  )))
          ]
        ]
      ]
    ]

    pub delete_certificate-IsDisjoint :
        IsDisjoint s → IsDisjoint (delete_certificate env accepts m fault id s).0
    unfolding delete_certificate
    delete_certificate-IsDisjoint v = elim (Option-cases (find id s.trusted_store)) [
      | inr (f, e) ↦ elim (Option-cases fault) [
        | inr (message, a) ↦ rw (e, a, delete_certificate) v
        | inl a ↦
            rw (e, a, delete_certificate)
              (signal_reload-IsDisjoint env accepts m _
                (λ j. ground (arith, find-unlink id j s.trusted_store, v j)))
      ]
      | inl e ↦ elim (Option-cases (find id s.rejected_store)) [
        | inl h ↦ rw (e, h, delete_certificate) v
        | inr (f, h) ↦ elim (Option-cases fault) [
          | inr (message, a) ↦ rw (e, h, a, delete_certificate) v
          | inl a ↦
              rw (e, h, a, delete_certificate)
                (signal_reload-IsDisjoint env accepts m _
                  (λ j. ground (arith, find-unlink id j s.rejected_store, v j)))
        ]
      ]
    ]
