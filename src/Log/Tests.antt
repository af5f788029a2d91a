-- ===== src/Log/Tests.antt =====
-- src/log/index.ts on a log with one entry.
use opcua_light_server.Prelude.{ℕ, String, ◌≡◌, refl, Bool, true, none, [], ◌∷◌, codes}
use opcua_light_server.Log.{info, warn, LogEntry, LogService, max_entries}
use opcua_light_server.Log.Window.{last, log_all, log_all-last}

abbrev first_entry : LogEntry
first_entry = record {
  timestamp = codes "1";
  level = info;
  source = codes "api";
  message = codes "up";
}

abbrev second_entry : LogEntry
second_entry = record {
  timestamp = codes "2";
  level = warn;
  source = codes "ipc";
  message = codes "slow";
}

abbrev one_entry : LogService
one_entry = record { entries = first_entry ∷ []; sse_hub = none }

abbrev always : ℕ → Bool
always res = true

abbrev nothing : LogEntry → String
nothing e = ""

log_all-last_example :
    (log_all always nothing (second_entry ∷ first_entry ∷ []) one_entry).entries
    ≡ last max_entries (first_entry ∷ second_entry ∷ first_entry ∷ [])
log_all-last_example =
    log_all-last always nothing one_entry (first_entry ∷ []) (second_entry ∷ first_entry ∷ []) refl
