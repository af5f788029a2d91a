-- ===== src/Auth.antt =====
-- src/auth/middleware.ts and src/auth/config.ts: which requests the Control API lets through.
-- `verify` is `jwt.verify` with the configured secret and issuer.
pub mod Access
pub mod Tests
use opcua_light_server.Prelude.{
  keep, not, split, map, Bool, true, false, Option, none, some, List, [], ◌∷◌, if◌then◌else◌, any,
  is_empty, Text, codes, text_eq, strip_prefix, trim,
}

pub data AuthMode : Type 0 where
  mode_none api_key jwt : AuthMode

pub record AuthConfig : Type 0 where
  pub mode : AuthMode
  pub api_keys : List Text
  pub jwt_secret : Text
  pub jwt_issuer : Option Text

-- The variables of the environment that the configuration is read from.
pub record AuthEnvironment : Type 0 where
  pub auth_mode : Option Text
  pub api_keys : Option Text
  pub jwt_secret : Option Text
  pub jwt_issuer : Option Text

-- A mode that is none of the three counts as `jwt`, as it does in the middleware.
parse_mode : Option Text → AuthMode
parse_mode none = mode_none
parse_mode (some t) =
    if is_empty t
    then mode_none
    else if text_eq t (codes "none")
    then mode_none
    else if text_eq t (codes "api-key")
    then api_key
    else jwt

load_keys : Option Text → List Text
unfolding split trim
load_keys none = []
load_keys (some t) =
    if is_empty t then [] else keep (λ k. not (is_empty k)) (map trim (split b',' t))

non_empty : Text → Option Text
non_empty t = if is_empty t then none else some t

pub load_auth_config : AuthEnvironment → AuthConfig
unfolding parse_mode load_keys non_empty
load_auth_config env = record {
  mode = parse_mode env.auth_mode;
  api_keys = load_keys env.api_keys;
  jwt_secret = elim env.jwt_secret [ none ↦ [] | some t ↦ t ];
  jwt_issuer = elim env.jwt_issuer [ none ↦ none | some t ↦ non_empty t ];
}

-- A header value: a text, or a list of texts where the header was repeated.
pub data Header : Type 0 where
  single : Text → Header
  repeated : List Text → Header

pub record Request : Type 0 where
  pub method : Text
  pub authorization : Option Text
  pub x_api_key : Option Header

pub data Verification : Type 0 where
  verified expired refused : Verification

pub data Verdict : Type 0 where
  passed : Verdict
  unauthorized : Text → Verdict

bearer : Text → Option Text
unfolding non_empty strip_prefix trim
bearer header = elim (strip_prefix (codes "Bearer ") header) [
  | none ↦ none
  | some rest ↦ non_empty (trim rest)
]

pub extract_bearer_token : Request → Option Text
unfolding bearer
extract_bearer_token req = elim req.authorization [ none ↦ none | some header ↦ bearer header ]

single_key : Option Header → Option Text
unfolding non_empty
single_key none = none
single_key (some (single t)) = non_empty t
single_key (some (repeated ts)) = none

pub extract_api_key : Request → Option Text
unfolding extract_bearer_token single_key
extract_api_key req = elim (extract_bearer_token req) [
  | some token ↦ some token
  | none ↦ single_key req.x_api_key
]

pub validate_api_key : AuthConfig → Request → Verdict
unfolding extract_api_key
validate_api_key config req = elim (extract_api_key req) [
  | none ↦ unauthorized (codes "Missing authentication credentials")
  | some key ↦
      if any (λ k. text_eq k key) config.api_keys
      then passed
      else unauthorized (codes "Invalid API key")
]

module _ (verify : Text → Text → Option Text → Verification) where
  -- The issuer is passed on only if it is not empty.
  pub validate_jwt : AuthConfig → Request → Verdict
  unfolding extract_bearer_token non_empty
  validate_jwt config req = elim (extract_bearer_token req) [
    | none ↦ unauthorized (codes "Missing authentication credentials")
    | some token ↦
        elim (verify token config.jwt_secret
          (elim config.jwt_issuer [ none ↦ none | some i ↦ non_empty i ])) [
            | verified ↦ passed
            | expired ↦ unauthorized (codes "Token expired")
            | refused ↦ unauthorized (codes "Invalid token")
          ]
  ]

  by_mode : AuthMode → AuthConfig → Request → Verdict
  unfolding validate_api_key validate_jwt
  by_mode mode_none config req = passed
  by_mode api_key config req =
      if text_eq req.method (codes "GET") then passed else validate_api_key config req
  by_mode jwt config req =
      if text_eq req.method (codes "GET") then passed else validate_jwt config req

  pub auth_middleware : AuthConfig → Request → Verdict
  unfolding by_mode
  auth_middleware config req = by_mode config.mode config req
