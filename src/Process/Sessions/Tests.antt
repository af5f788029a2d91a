-- ===== src/Process/Sessions/Tests.antt =====
-- src/process-manager/validate-sessions.ts on a file with one session.
use opcua_light_server.Prelude.{◌≡◌, refl, Bool, true, some, [], ◌∷◌, Text, codes}
use opcua_light_server.Prelude.Json.{Items, arr, nil, cons, bool}
use opcua_light_server.Process.Sessions.{ClientSession, activated, validate_sessions}
use opcua_light_server.Process.Sessions.Reading.{
  session_json, sessions_json, validate_sessions-sessions_json,
}

abbrev all_dates : Text → Bool
all_dates s = true

abbrev session : ClientSession
session = record {
  application_name = codes "app";
  application_uri = codes "urn:app";
  security_policy_uri = codes "none";
  client_address = codes "::1";
  connect_time = codes "2024-01-01";
  session_state = activated;
}

validate_sessions-sessions_json_example :
    validate_sessions all_dates {N = Unit {0}} (some (arr (sessions_json (session ∷ []))))
    ≡ session ∷ []
validate_sessions-sessions_json_example =
    validate_sessions-sessions_json all_dates (Unit {0}) (session ∷ []) (refl, tt)

abbrev mixed : Items (Unit {0})
mixed = cons (bool true) (cons (session_json session) nil)
