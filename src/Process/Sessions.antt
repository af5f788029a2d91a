-- ===== src/Process/Sessions.antt =====
-- src/process-manager/validate-sessions.ts: which entries of status.json are client sessions.
-- `is_valid_date` stands for `!Number.isNaN(new Date(value).getTime())`.
pub mod Reading
pub mod Tests
use opcua_light_server.Prelude.{
  Bool, true, false, Option, none, some, List, [], ◌∷◌, Text, codes, text_eq, if◌then◌else◌,
}
use opcua_light_server.Prelude.Json.{
  Json, Items, Fields, null, bool, num, str, arr, obj, nil, cons, get,
}

pub data ClientSessionState : Type 0 where
  created activated closing : ClientSessionState

pub record ClientSession : Type 0 where
  pub application_name : Text
  pub application_uri : Text
  pub security_policy_uri : Text
  pub client_address : Text
  pub connect_time : Text
  pub session_state : ClientSessionState

pub state_name : ClientSessionState → Text
state_name created = codes "Created"
state_name activated = codes "Activated"
state_name closing = codes "Closing"

-- `VALID_SESSION_STATES.has(s)`, with the value that the cast then gives.
pub parse_state : Text → Option ClientSessionState
parse_state s =
    if text_eq s (codes "Created")
    then some created
    else if text_eq s (codes "Activated")
    then some activated
    else if text_eq s (codes "Closing")
    then some closing
    else none

infixl 5 ◌>>=◌
abbrev ◌>>=◌ {ℓ κ} : {A : Type ℓ} {B : Type κ} → Option A → (A → Option B) → Option B
none >>= k = none
some a >>= k = k a

-- `typeof value === 'string'`, with the string.
abbrev pub as_string : {N : Type 0} → Option (Json N) → Option Text
as_string (some (str s)) = some s
as_string none = none
as_string (some null) = none
as_string (some (bool b)) = none
as_string (some (num n)) = none
as_string (some (arr xs)) = none
as_string (some (obj fs)) = none

abbrev pub push : Option ClientSession → List ClientSession → List ClientSession
push none cs = cs
push (some c) cs = c ∷ cs

module _ (is_valid_date : Text → Bool) {N : Type 0} where
  -- The body of the loop, from the fields of an entry: `none` is `continue`.
  pub read_session : Fields N → Option ClientSession
  unfolding get
  read_session fs = do
    application_name ← as_string (get (codes "applicationName") fs)
    application_uri ← as_string (get (codes "applicationUri") fs)
    security_policy_uri ← as_string (get (codes "securityPolicyUri") fs)
    client_address ← as_string (get (codes "clientAddress") fs)
    connect_time ← as_string (get (codes "connectTime") fs)
    session_state ← as_string (get (codes "sessionState") fs)
    state ← parse_state session_state
    if is_valid_date connect_time
        then some (record {
          application_name = application_name;
          application_uri = application_uri;
          security_policy_uri = security_policy_uri;
          client_address = client_address;
          connect_time = connect_time;
          session_state = state;
        })
        else none

  -- `isRecord(entry)` and the rest of the body.
  pub read_entry : Json N → Option ClientSession
  unfolding read_session
  read_entry (obj fs) = read_session fs
  read_entry null = none
  read_entry (bool b) = none
  read_entry (num n) = none
  read_entry (str s) = none
  read_entry (arr xs) = none

  pub read_entries : Items N → List ClientSession
  unfolding read_entry
  read_entries nil = []
  read_entries (cons entry rest) = push (read_entry entry) (read_entries rest)

  -- `raw` is the `sessions` field of the parsed file: `none` is `undefined`.
  pub validate_sessions : Option (Json N) → List ClientSession
  unfolding read_entries
  validate_sessions (some (arr xs)) = read_entries xs
  validate_sessions none = []
  validate_sessions (some null) = []
  validate_sessions (some (bool b)) = []
  validate_sessions (some (num n)) = []
  validate_sessions (some (str s)) = []
  validate_sessions (some (obj fs)) = []
