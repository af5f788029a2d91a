-- ===== src/Plugins.antt =====
-- src/connectors/core/plugin-loader.ts: the loading of connector plugins. Log lines are left out.
pub mod Loading
pub mod Tests
use opcua_light_server.Prelude.{
  ℕ, Bool, true, false, ◌&&◌, not, Option, none, some, List, [], ◌∷◌, ◌++◌, String, Text, codes,
  is_some, if◌then◌else◌, Dict, lookup, has, insert,
}

pub data Source : Type 0 where
  built_in external : Source

-- A name for each reason; `duplicate` holds the directory that was first.
pub data Reason : Type 0 where
  no_entry_point failed_import no_connector missing_get_metadata failed_instantiation
        metadata_threw :
      Reason
  already_registered : String → Reason

pub record SkippedPlugin : Type 0 where
  pub directory : String
  pub reason : Reason

-- An export of a module: a function, or another value that is not null.
pub data Export (C : Type 0) : Type 0 where
  function : C → Export C
  value : Export C

pub record Module (C : Type 0) : Type 0 where
  pub default_export : Option (Export C)
  pub named_exports : List (Export C)

-- What the duck-typing sees of an instance.
pub record Probe : Type 0 where
  pub has_get_type : Bool
  pub has_get_metadata : Bool

pub data Validation (C : Type 0) : Type 0 where
  valid : C → Validation C
  invalid : Reason → Validation C

-- A subdirectory: whether it has an entry point, and the module where its import succeeds.
pub data Entry (C : Type 0) : Type 0 where
  no_entry : Entry C
  broken_entry : Entry C
  module_entry : Module C → Entry C

pub record PluginInfo (K M : Type 0) : Type 0 where
  pub type : String
  pub source : Source
  pub connector : K
  pub metadata : M

pub record LoadState (K M : Type 0) : Type 0 where
  pub registered_types : Dict String
  pub loaded : List (PluginInfo K M)
  pub skipped : List SkippedPlugin

abbrev pub empty_state : {K M : Type 0} → LoadState K M
empty_state = record { registered_types = []; loaded = []; skipped = [] }

-- The named exports that are functions.
unfoldable pub functions : {C : Type 0} → List (Export C) → List C
functions [] = []
functions (function c ∷ exports) = c ∷ functions exports
functions (value ∷ exports) = functions exports

-- The candidates that are functions; the others are passed over by both loops.
unfoldable pub candidates : {C : Type 0} → Module C → List C
unfolding functions
candidates m = elim m.default_export [
  | none ↦ functions m.named_exports
  | some e ↦ elim e [
    | function c ↦ c ∷ functions m.named_exports
    | value ↦ functions m.named_exports
  ]
]

-- `construct` is what `new` makes of a class, where it does not throw.
module _ {C : Type 0} (construct : C → Option Probe) where
  -- The first loop: `none` where it runs out of candidates.
  unfoldable pub first_valid : List C → Option (Validation C)
  first_valid [] = none
  first_valid (c ∷ cs) =
      let rest : Option (Validation C) = first_valid cs in
      elim (construct c) [
        | none ↦ rest
        | some probe ↦
            if probe.has_get_type
            then (if probe.has_get_metadata
                then some (valid c)
                else some (invalid missing_get_metadata))
            else rest
      ]

  -- The second loop.
  unfoldable pub second_reason : List C → Reason
  second_reason [] = no_connector
  second_reason (c ∷ cs) =
      let rest : Reason = second_reason cs in
      elim (construct c) [
        | none ↦ rest
        | some probe ↦
            if probe.has_get_type && not probe.has_get_metadata then missing_get_metadata else rest
      ]

  unfoldable pub validate_connector_module : Module C → Validation C
  unfolding first_valid second_reason candidates
  validate_connector_module m = elim (first_valid (candidates m)) [
    | none ↦ invalid (second_reason (candidates m))
    | some v ↦ v
  ]

abbrev pub skip : {K M : Type 0} → String → Reason → LoadState K M → LoadState K M
skip name reason s = record s {
  skipped = s.skipped ++ (record { directory = name; reason = reason }) ∷ [];
}

-- `instantiate`, `get_metadata` and `get_type` are `none` where they throw; metadata that is null or
-- undefined is `some none`. The results bear whether an exception has left the scan.
module _ {C K M : Type 0} (construct : C → Option Probe) (instantiate : C → Option K)
    (get_metadata : K → Option (Option M)) (get_type : K → Option String) where
  -- The end: the type is registered before `metadata.displayName` is read, which throws on null.
  unfoldable pub add :
      Source → String → K → Option M → String → LoadState K M → LoadState K M × Bool
  unfolding insert
  add source name connector metadata type s =
      let s₁ : LoadState K M = record s {
        registered_types = insert type name s.registered_types;
      } in
      elim metadata [
        | none ↦ (s₁, true)
        | some m ↦ (
          record s₁ {
            loaded =
                s.loaded
                ++ (record { type = type; source = source; connector = connector; metadata = m })
                  ∷ [];
          },
          false,
        )
      ]

  -- The part from the instantiation on. Nothing guards `getType`.
  unfoldable pub register : Source → String → C → LoadState K M → LoadState K M × Bool
  unfolding lookup add
  register source name c s = elim (instantiate c) [
    | none ↦ (skip name failed_instantiation s, false)
    | some connector ↦ elim (get_metadata connector) [
      | none ↦ (skip name metadata_threw s, false)
      | some metadata ↦ elim (get_type connector) [
        | none ↦ (s, true)
        | some type ↦ elim (lookup type s.registered_types) [
          | some directory ↦ (skip name (already_registered directory) s, false)
          | none ↦ add source name connector metadata type s
        ]
      ]
    ]
  ]

  unfoldable pub load_entry : Source → String → Entry C → LoadState K M → LoadState K M × Bool
  unfolding register validate_connector_module
  load_entry source name no_entry s = (skip name no_entry_point s, false)
  load_entry source name broken_entry s = (skip name failed_import s, false)
  load_entry source name (module_entry m) s = elim (validate_connector_module construct m) [
    | invalid reason ↦ (skip name reason s, false)
    | valid c ↦ register source name c s
  ]

  -- The loop over the subdirectories, which an exception ends.
  unfoldable pub load_entries :
      Source → List (String × Entry C) → LoadState K M → LoadState K M × Bool
  unfolding load_entry
  load_entries source [] s = (s, false)
  load_entries source ((name, entry) ∷ entries) s =
      let r : LoadState K M × Bool = load_entry source name entry s in
      let rest : LoadState K M × Bool = load_entries source entries r.0 in if r.1 then r else rest

  -- A directory that cannot be read is `none`.
  unfoldable pub scan_directory :
      Source → Option (List (String × Entry C)) → LoadState K M → LoadState K M × Bool
  unfolding load_entries
  scan_directory source none s = (s, false)
  scan_directory source (some entries) s = load_entries source entries s

  -- The external path is `none` where it is not given, not a directory or not accessible. An
  -- exception from the built-in directory goes to the caller (`none`); one from the external directory
  -- is caught, and what was loaded before it stays.
  unfoldable pub load_plugins :
      Option (List (String × Entry C))
      → Option (Option (List (String × Entry C)))
      → Option (LoadState K M)
  unfolding scan_directory
  load_plugins built_in_dir external_dir =
      let r : LoadState K M × Bool = scan_directory built_in built_in_dir empty_state in
      if r.1 then none else elim external_dir [
        | none ↦ some r.0
        | some dir ↦ some (scan_directory external dir r.0).0
      ]
