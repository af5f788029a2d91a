-- ===== src/Params/Tests.antt =====
-- src/connectors/core/params-validator.ts on a schema of two fields.
use opcua_light_server.Prelude.{
  ℕ, ◌≡◌, ◌↔◌, Bool, true, false, Option, none, some, [], ◌∷◌, ltb, All, Text, codes, is_digit,
  read_digits, all, if◌then◌else◌,
}
use opcua_light_server.Prelude.Json.{Fields, num, str, end, field, get}
use opcua_light_server.Params.{ParamField, text, number, validate_params}
use opcua_light_server.Params.Validity.{IsValid, validate_params_iff}

abbrev host : ParamField ℕ
host = record {
  key = codes "host";
  label = codes "Host";
  type = text;
  required = true;
  pattern = none;
  pattern_message = none;
  min = none;
  max = none;
  options = none;
}

abbrev port : ParamField ℕ
port = record host {
  key = codes "port";
  type = number;
  required = false;
  min = some 1;
  max = some 65535;
}

abbrev no_port : Fields ℕ
no_port = field (codes "host") (str (codes "plc")) (field (codes "port") (num 0) end)

abbrev any_text : Text → Text → Bool
any_text p s = true

abbrev decimal : Text → Option ℕ
decimal s = if all is_digit s then some (read_digits 0 s) else none

validate_params_iff_example :
    ((validate_params any_text ltb decimal no_port (host ∷ port ∷ [])).valid ≡ true)
    ↔ All (λ f. IsValid any_text ltb decimal f (get f.key no_port)) (host ∷ port ∷ [])
validate_params_iff_example = validate_params_iff any_text ltb decimal no_port (host ∷ port ∷ [])
