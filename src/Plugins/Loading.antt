-- ===== src/Plugins/Loading.antt =====
-- src/connectors/core/plugin-loader.ts: which plugins are loaded, and that none is lost.
use opcua_light_server.Prelude.{
  ◌≡◌, ◌≢◌, ◌⊎◌, refl, Bool, false, ◌||◌, Option, none, some, List, [], ◌∷◌, ◌++◌, any, arith,
  String, str_eq, eq_iff, lookup, has, insert, lookup-insert, Option-cases, inl, inr,
}
use opcua_light_server.Plugins.{
  Source, built_in, external, SkippedPlugin, Probe, valid, invalid, Entry, no_entry, broken_entry,
  module_entry, PluginInfo, LoadState, empty_state, first_valid, second_reason, no_connector,
  validate_connector_module, skip, Reason, add, register, load_entry, load_entries, scan_directory,
  load_plugins,
}

-- The second loop of the validation never changes the reason.
pub second_reason-first_valid :
    {C : Type 0} (construct : C → Option Probe) (cs : List C)
    → first_valid construct cs ≡ none
    → second_reason construct cs ≡ no_connector
unfolding first_valid second_reason
second_reason-first_valid construct [] e = refl
second_reason-first_valid construct (c ∷ cs) e = elim (Option-cases (construct c)) [
  | inl n ↦ ground (arith, e, n, second_reason-first_valid construct cs)
  | inr (p, n) ↦ ground (arith, e, n, second_reason-first_valid construct cs)
]

abbrev pub has_type : {K M : Type 0} → String → List (PluginInfo K M) → Bool
has_type type plugins = any (λ p. str_eq p.type type) plugins

-- No two plugins have one type.
abbrev pub AreDistinct : {K M : Type 0} → List (PluginInfo K M) → Type 0
AreDistinct [] = Unit
AreDistinct (p ∷ plugins) = (has_type p.type plugins ≡ false) × AreDistinct plugins

has_type-append :
    {K M : Type 0} (type : String) (xs : List (PluginInfo K M)) (p : PluginInfo K M)
    → has_type type (xs ++ p ∷ []) ≡ (has_type type xs || str_eq p.type type)
has_type-append type [] p = ground (arith)
has_type-append type (x ∷ xs) p = ground (arith, has_type-append type xs p)

append-AreDistinct :
    {K M : Type 0} (xs : List (PluginInfo K M)) (p : PluginInfo K M)
    → AreDistinct xs
    → has_type p.type xs ≡ false
    → AreDistinct (xs ++ p ∷ [])
append-AreDistinct [] p d h = (refl, tt)
append-AreDistinct (x ∷ xs) p d h = (
  ground (arith, h, d.0, has_type-append x.type xs p, eq_iff x.type p.type, eq_iff p.type x.type),
  append-AreDistinct xs p d.1 (ground (arith, h)),
)

-- The map of the types holds the types of the loaded plugins, which differ.
abbrev pub IsRegistry : {K M : Type 0} → LoadState K M → Type 0
IsRegistry s =
    ((type : String) → has type s.registered_types ≡ has_type type s.loaded) × AreDistinct s.loaded

-- The state with one more plugin, and the one with one more directory that was skipped.
abbrev pub with_plugin : {K M : Type 0} → String → PluginInfo K M → LoadState K M → LoadState K M
with_plugin name p s = record s {
  registered_types = insert p.type name s.registered_types;
  loaded = s.loaded ++ p ∷ [];
}

abbrev pub with_skipped : {K M : Type 0} → SkippedPlugin → LoadState K M → LoadState K M
with_skipped p s = record s { skipped = s.skipped ++ p ∷ [] }

-- From one state to the other, each directory in order has added one plugin, of its source and of a
-- type that no plugin had, or its own name to the skipped ones, and nothing else.
abbrev pub AreHandled :
    {C K M : Type 0} → Source → List (String × Entry C) → LoadState K M → LoadState K M → Type 0
AreHandled source [] s s' = s' ≡ s
AreHandled {K = K} {M = M} source ((name, entry) ∷ entries) s s' =
    ((p : PluginInfo K M) × (p.source ≡ source)
      × (has_type p.type s.loaded ≡ false)
      × AreHandled source entries (with_plugin name p s) s')
    ⊎ ((p : SkippedPlugin) × (p.directory ≡ name) × AreHandled source entries (with_skipped p s) s')

loaded-IsRegistry :
    {K M : Type 0} (name : String) (p : PluginInfo K M) (s : LoadState K M)
    → IsRegistry s
    → has_type p.type s.loaded ≡ false
    → IsRegistry (with_plugin name p s)
loaded-IsRegistry name p s v f = (
  (λ type. ground (
    arith,
    v.0 type,
    lookup-insert p.type type name s.registered_types,
    has_type-append type s.loaded p,
  )),
  append-AreDistinct s.loaded p v.1 f,
)

-- What one directory does.
abbrev Handles : {K M : Type 0} → Source → String → LoadState K M → LoadState K M × Bool → Type 0
Handles {K = K} {M = M} source name s r =
    (r.1 ≡ false)
    × (((p : PluginInfo K M) × (p.source ≡ source)
          × (has_type p.type s.loaded ≡ false)
          × (r.0 ≡ with_plugin name p s))
        ⊎ ((p : SkippedPlugin) × (p.directory ≡ name) × (r.0 ≡ with_skipped p s)))

skip-Handles :
    {K M : Type 0} (source : Source) (name : String) (reason : Reason) (s : LoadState K M)
    → Handles source name s (skip name reason s, false)
skip-Handles source name reason s =
    (refl, inr (record { directory = name; reason = reason }, refl, refl))

module _ {C K M : Type 0} (construct : C → Option Probe) (instantiate : C → Option K)
    (get_metadata : K → Option (Option M)) (get_type : K → Option String)
    (typed : (k : K) → get_type k ≢ none) (described : (k : K) → get_metadata k ≢ some none) where
  register-Handles :
      (source : Source) (name : String) (c : C) (s : LoadState K M)
      → IsRegistry s
      → Handles source name s (register construct instantiate get_metadata get_type source name c s)
  unfolding register add
  register-Handles source name c s v = elim (Option-cases (instantiate c)) [
    | inl e ↦ rw (register, e) (skip-Handles source name _ s)
    | inr (k, e) ↦ elim (Option-cases (get_metadata k)) [
      | inl h ↦ rw (register, e, h) (skip-Handles source name _ s)
      | inr (none, h) ↦ absurd (described k h)
      | inr (some m, h) ↦ elim (Option-cases (get_type k)) [
        | inl y ↦ absurd (typed k y)
        | inr (type, y) ↦ elim (Option-cases (lookup type s.registered_types)) [
          | inr (d, o) ↦ rw (register, e, h, y, o) (skip-Handles source name _ s)
          | inl o ↦
              rw (register, e, h, y, o) (refl, inl (_, refl, ground (arith, o, v.0 type), refl))
        ]
      ]
    ]
  ]

  load_entry-Handles :
      (source : Source) (name : String) (entry : Entry C) (s : LoadState K M)
      → IsRegistry s
      → Handles source name s
          (load_entry construct instantiate get_metadata get_type source name entry s)
  unfolding load_entry
  load_entry-Handles source name no_entry s v = skip-Handles source name _ s
  load_entry-Handles source name broken_entry s v = skip-Handles source name _ s
  load_entry-Handles source name (module_entry m) s v =
      elim (validate_connector_module construct m)
        as (λ w. Handles source name s (elim w [
          | invalid reason ↦ (skip name reason s, false)
          | valid c ↦ register construct instantiate get_metadata get_type source name c s
        ])) [
          | invalid reason ↦ skip-Handles source name reason s
          | valid c ↦ register-Handles source name c s v
        ]

  -- What a scan does.
  abbrev Scans : Source → List (String × Entry C) → LoadState K M → LoadState K M × Bool → Type 0
  Scans source entries s r = (r.1 ≡ false) × AreHandled source entries s r.0 × IsRegistry r.0

  load_entries-Scans :
      (source : Source) (entries : List (String × Entry C)) (s : LoadState K M)
      → IsRegistry s
      → Scans source entries s
          (load_entries construct instantiate get_metadata get_type source entries s)
  unfolding load_entries
  load_entries-Scans source [] s v = (refl, refl, v)
  load_entries-Scans source ((name, entry) ∷ entries) s v =
      let (e, added) = load_entry-Handles source name entry s v in
      elim added [
        | inl (p, o, f, h) ↦
            let r =
              load_entries-Scans source entries (with_plugin name p s)
                (loaded-IsRegistry name p s v f) in
            rw (load_entries, e, h) (r.0, inl (p, o, f, r.1), r.2)
        | inr (p, o, h) ↦
            let r = load_entries-Scans source entries (with_skipped p s) v in
            rw (load_entries, e, h) (r.0, inr (p, o, r.1), r.2)
      ]

  -- If `getType` of no connector throws and no metadata is null, the loading ends without an
  -- exception. In the order of the built-in and then the external subdirectories, each of them is
  -- either loaded, as a plugin of its source with a type that none before it has, or skipped under its
  -- name, and no two loaded plugins have one type.
  pub load_plugins-AreDistinct :
      (built_ins externals : List (String × Entry C))
      → (s : LoadState K M) × (load_plugins construct instantiate get_metadata get_type
            (some built_ins)
            (some (some externals))
          ≡ some s)
        × AreDistinct s.loaded
        × ((s₁ : LoadState K M) × AreHandled built_in built_ins empty_state s₁
            × AreHandled external externals s₁ s)
  unfolding load_plugins scan_directory lookup
  load_plugins-AreDistinct built_ins externals =
      let b = load_entries-Scans built_in built_ins empty_state ((λ type. refl), tt) in
      let e = load_entries-Scans external externals _ b.2 in
      (_, rw (load_plugins, b.0) refl, e.2.1, (_, b.1, e.1))
