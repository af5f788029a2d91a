-- ===== src/Plugins/Tests.antt =====
-- src/connectors/core/plugin-loader.ts: a built-in and an external plugin of one type.
use opcua_light_server.Prelude.{
  ◌≡◌, ◌≢◌, arith, none, refl, true, Option, some, List, [], ◌∷◌, String, lookup, insert,
}
use opcua_light_server.Plugins.{
  function, value, Probe, Entry, no_entry, module_entry, LoadState, load_plugins, load_entries,
  load_entry, register, add, built_in, external, empty_state, scan_directory,
  validate_connector_module, first_valid, candidates, functions, already_registered, no_entry_point,
}
use opcua_light_server.Plugins.Loading.{AreDistinct, AreHandled, load_plugins-AreDistinct}

-- A class is the type of its connectors.
abbrev construct : String → Option Probe
construct c = some (record { has_get_type = true; has_get_metadata = true })

abbrev keep : String → Option String
keep c = some c

abbrev metadata_of : String → Option (Option String)
metadata_of c = some (some c)

keep-some : (c : String) → keep c ≢ none
keep-some c e = ground (arith, e)

metadata_of-some : (c : String) → metadata_of c ≢ some none
metadata_of-some c e = ground (arith, e)

abbrev modbus : Entry String
modbus =
    module_entry
      (record { default_export = some value; named_exports = value ∷ function "modbus" ∷ [] })

abbrev built_ins : List (String × Entry String)
built_ins = ("core", no_entry) ∷ ("modbus-tcp", modbus) ∷ []

abbrev state : Option (LoadState String String)
state =
    load_plugins construct keep metadata_of keep (some built_ins)
      (some (some (("mine", modbus) ∷ [])))

skipped_test :
    elim state [ none ↦ [] | some s ↦ s.skipped ]
    ≡ record { directory = "core"; reason = no_entry_point }
      ∷ record { directory = "mine"; reason = already_registered "modbus-tcp" }
      ∷ []
unfolding load_plugins scan_directory load_entries load_entry register add validate_connector_module
    first_valid candidates functions lookup insert
skipped_test = refl

load_plugins-AreDistinct_example :
    (s : LoadState String String) × (state ≡ some s)
    × AreDistinct s.loaded
    × ((s₁ : LoadState String String) × AreHandled built_in built_ins empty_state s₁
        × AreHandled external (("mine", modbus) ∷ []) s₁ s)
load_plugins-AreDistinct_example =
    load_plugins-AreDistinct construct keep metadata_of keep keep-some metadata_of-some built_ins
      (("mine", modbus) ∷ [])
