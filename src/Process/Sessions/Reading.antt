-- ===== src/Process/Sessions/Reading.antt =====
-- src/process-manager/validate-sessions.ts: what the validated sessions are.
use opcua_light_server.Prelude.{
  ◌≡◌, refl, Bool, true, some, List, [], ◌∷◌, Text, codes, All, arith, none, Option, Option-cases,
  inl, inr,
}
use opcua_light_server.Prelude.Json.{Json, Items, Fields, str, arr, obj, nil, cons, end, field}
use opcua_light_server.Process.Sessions.{
  ClientSession, ClientSessionState, created, activated, closing, state_name, parse_state,
  read_session, read_entry, read_entries, validate_sessions,
}

module _ {N : Type 0} where
  -- A session as the runtime writes it.
  abbrev pub session_json : ClientSession → Json N
  session_json c = obj (
      field (codes "applicationName") (str c.application_name) (
        field (codes "applicationUri") (str c.application_uri) (
          field (codes "securityPolicyUri") (str c.security_policy_uri) (
            field (codes "clientAddress") (str c.client_address) (
              field (codes "connectTime") (str c.connect_time)
                (field (codes "sessionState") (str (state_name c.session_state)) end))))))

  abbrev pub sessions_json : List ClientSession → Items N
  sessions_json [] = nil
  sessions_json (c ∷ cs) = cons (session_json c) (sessions_json cs)

parse_state-state_name : (s : ClientSessionState) → parse_state (state_name s) ≡ some s
unfolding parse_state state_name
parse_state-state_name created = refl
parse_state-state_name activated = refl
parse_state-state_name closing = refl

module _ (is_valid_date : Text → Bool) where
  abbrev pub HasValidDate : ClientSession → Type 0
  HasValidDate c = is_valid_date c.connect_time ≡ true

module _ (is_valid_date : Text → Bool) (N : Type 0) where
  read_entry-session_json :
      (c : ClientSession)
      → HasValidDate is_valid_date c
      → read_entry is_valid_date {N = N} (session_json c) ≡ some c
  unfolding read_entry
  read_entry-session_json c h = ground (arith, parse_state-state_name c.session_state)

  read_entries-sessions_json :
      (cs : List ClientSession)
      → All (HasValidDate is_valid_date) cs
      → read_entries is_valid_date {N = N} (sessions_json cs) ≡ cs
  unfolding read_entries
  read_entries-sessions_json [] h = refl
  read_entries-sessions_json (c ∷ cs) h =
      ground (arith, read_entry-session_json c h.0, read_entries-sessions_json cs h.1)

  read_session-HasValidDate :
      (fs : Fields N) (c : ClientSession)
      → read_session is_valid_date fs ≡ some c
      → HasValidDate is_valid_date c
  unfolding read_session
  read_session-HasValidDate fs c e = ground arith

  read_entry-HasValidDate :
      (entry : Json N) (c : ClientSession)
      → read_entry is_valid_date entry ≡ some c
      → HasValidDate is_valid_date c
  unfolding read_entry
  read_entry-HasValidDate (obj fs) c e = read_session-HasValidDate fs c e
  read_entry-HasValidDate _ c e = cc

  read_entries-HasValidDate :
      (xs : Items N) → All (HasValidDate is_valid_date) (read_entries is_valid_date xs)
  unfolding read_entries
  read_entries-HasValidDate nil = tt
  read_entries-HasValidDate (cons entry rest) =
      elim (Option-cases (read_entry is_valid_date entry)) [
        | inl e ↦ rw e (read_entries-HasValidDate rest)
        | inr (c, e) ↦ rw e (read_entry-HasValidDate entry c e, read_entries-HasValidDate rest)
      ]

  validate_sessions-HasValidDate :
      (raw : Option (Json N))
      → All (HasValidDate is_valid_date) (validate_sessions is_valid_date raw)
  unfolding validate_sessions
  validate_sessions-HasValidDate (some (arr xs)) = read_entries-HasValidDate xs
  validate_sessions-HasValidDate (some _) = tt
  validate_sessions-HasValidDate none = tt

-- Sessions with valid connect times, written as the runtime writes them, are all read back, in order.
pub validate_sessions-sessions_json :
    (is_valid_date : Text → Bool) (N : Type 0) (cs : List ClientSession)
    → All (HasValidDate is_valid_date) cs
    → validate_sessions is_valid_date {N = N} (some (arr (sessions_json cs))) ≡ cs
unfolding validate_sessions
validate_sessions-sessions_json is_valid_date N cs h =
    read_entries-sessions_json is_valid_date N cs h

-- Whatever the file holds (no sessions, a value that is no array, malformed entries), the sessions
-- that are taken from it would be taken again, all and in the same order, if written back.
pub validate_sessions_idempotent :
    (is_valid_date : Text → Bool) (N : Type 0) (raw : Option (Json N))
    → let cs = validate_sessions is_valid_date raw in
      validate_sessions is_valid_date {N = N} (some (arr (sessions_json cs))) ≡ cs
validate_sessions_idempotent is_valid_date N raw =
    validate_sessions-sessions_json is_valid_date N _
      (validate_sessions-HasValidDate is_valid_date N raw)
