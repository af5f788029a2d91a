-- ===== src/Auth/Access.antt =====
-- src/auth/middleware.ts: exactly which requests pass.
use opcua_light_server.Prelude.{
  ◌≡◌, ◌≢◌, ◌↔◌, ◌⊎◌, inl, inr, refl, true, Option, none, some, List, [], ◌∷◌, arith, Option-cases,
  if◌then◌else◌, is_empty, any, Text, codes, text_eq, text_eq_iff, ◌++◌, trim, strip_prefix, false,
}
use opcua_light_server.Auth.{
  non_empty, single_key, Header, repeated, AuthConfig, AuthMode, mode_none, api_key, jwt, Request,
  Verification, verified, passed, unauthorized, bearer, single, extract_bearer_token,
  extract_api_key, validate_api_key, validate_jwt, by_mode, auth_middleware,
}

-- A key is configured.
abbrev pub IsListed : Text → List Text → Type 0
IsListed key [] = ⊥
IsListed key (k ∷ ks) = (k ≡ key) ⊎ IsListed key ks

any-IsListed :
    (key : Text) (ks : List Text) → (any (λ k. text_eq k key) ks ≡ true) ↔ IsListed key ks
any-IsListed key [] = (λ e. cc, λ h. absurd h)
any-IsListed key (k ∷ ks) = ground (arith, text_eq_iff k key, any-IsListed key ks)

abbrev pub issuer : AuthConfig → Option Text
issuer config = elim config.jwt_issuer [
  | none ↦ none
  | some i ↦ if is_empty i then none else some i
]

-- The authorization header is "Bearer " and the token, white space around it aside.
abbrev pub IsBearerHeader : Text → Text → Type 0
IsBearerHeader token header =
    (rest : Text) × (header ≡ codes "Bearer " ++ rest)
    × (trim rest ≡ token)
    × (is_empty token ≡ false)

abbrev pub IsBearer : Text → Request → Type 0
IsBearer token req =
    (header : Text) × (req.authorization ≡ some header) × IsBearerHeader token header

-- The header with the key is there once and not empty, and there is no bearer token.
abbrev pub IsHeaderKey : Text → Request → Type 0
IsHeaderKey key req =
    ((token : Text) → ¬ IsBearer token req)
    × (req.x_api_key ≡ some (single key))
    × (is_empty key ≡ false)

strip_prefix_iff : (p s rest : Text) → (strip_prefix p s ≡ some rest) ↔ (s ≡ p ++ rest)
unfolding strip_prefix
strip_prefix_iff [] s rest = ground arith
strip_prefix_iff (c ∷ p) [] rest = ground arith
strip_prefix_iff (c ∷ p) (d ∷ s) rest = ground (arith, strip_prefix_iff p s rest)

non_empty_iff :
    (t token : Text) → (non_empty t ≡ some token) ↔ ((t ≡ token) × (is_empty token ≡ false))
unfolding non_empty
non_empty_iff [] token = ground arith
non_empty_iff (c ∷ t) token = ground arith

bearer_iff : (header token : Text) → (bearer header ≡ some token) ↔ IsBearerHeader token header
unfolding bearer
bearer_iff header token = elim (Option-cases (strip_prefix (codes "Bearer ") header)) [
  | inl e ↦ (
    λ h. absurd (ground (arith, e, h)),
    λ (rest, h, _, _). ground (arith, e, strip_prefix_iff (codes "Bearer ") header rest, h),
  )
  | inr (rest, e) ↦ (
    λ h. (
      rest,
      (strip_prefix_iff (codes "Bearer ") header rest).0 e,
      ground (arith, e, h, non_empty_iff (trim rest) token),
      ground (arith, e, h, non_empty_iff (trim rest) token),
    ),
    λ (rest', h, t, n). ground (
      arith,
      e,
      strip_prefix_iff (codes "Bearer ") header rest',
      h,
      non_empty_iff (trim rest') token,
      t,
      n,
    ),
  )
]

extract_bearer_token_iff :
    (req : Request) (token : Text) → (extract_bearer_token req ≡ some token) ↔ IsBearer token req
unfolding extract_bearer_token
extract_bearer_token_iff req token = elim (Option-cases req.authorization) [
  | inl e ↦ (λ h. absurd (ground (arith, e, h)), λ (header, a, _). ground (arith, e, a))
  | inr (header, e) ↦ (
    λ h. (header, e, (bearer_iff header token).0 (ground (arith, e, h))),
    λ (header', a, h). ground (arith, e, a, (bearer_iff header' token).1 h),
  )
]

single_key_iff :
    (o : Option Header) (key : Text)
    → (single_key o ≡ some key) ↔ ((o ≡ some (single key)) × (is_empty key ≡ false))
unfolding single_key
single_key_iff none key = ground arith
single_key_iff (some (single t)) key = ground (arith, non_empty_iff t key)
single_key_iff (some (repeated ts)) key = ground arith

extract_api_key_iff :
    (req : Request) (key : Text)
    → (extract_api_key req ≡ some key) ↔ (IsBearer key req ⊎ IsHeaderKey key req)
unfolding extract_api_key
extract_api_key_iff req key = elim (Option-cases (extract_bearer_token req)) [
  | inl e ↦ (
    λ h. inr (
      λ token b. ground (arith, e, (extract_bearer_token_iff req token).1 b),
      ground (arith, e, h, single_key_iff req.x_api_key key),
      ground (arith, e, h, single_key_iff req.x_api_key key),
    ),
    λ h. elim h [
      | inl b ↦ ground (arith, e, (extract_bearer_token_iff req key).1 b)
      | inr (_, x, n) ↦ ground (arith, e, x, n, single_key_iff req.x_api_key key)
    ],
  )
  | inr (token, e) ↦ (
    λ h. inl ((extract_bearer_token_iff req key).0 (ground (arith, e, h))),
    λ h. elim h [
      | inl b ↦ ground (arith, e, (extract_bearer_token_iff req key).1 b)
      | inr (n, _, _) ↦ absurd (n token ((extract_bearer_token_iff req token).0 e))
    ],
  )
]

module _ (verify : Text → Text → Option Text → Verification) where
  -- What a request needs where authentication is on.
  abbrev pub HasCredentials : AuthMode → AuthConfig → Request → Type 0
  HasCredentials mode_none config req = Unit
  HasCredentials api_key config req =
      (key : Text) × (IsBearer key req ⊎ IsHeaderKey key req) × IsListed key config.api_keys
  HasCredentials jwt config req =
      (token : Text) × IsBearer token req
      × (verify token config.jwt_secret (issuer config) ≡ verified)

  validate_api_key_iff :
      (config : AuthConfig) (req : Request)
      → (validate_api_key config req ≡ passed) ↔ HasCredentials api_key config req
  unfolding validate_api_key
  validate_api_key_iff config req = elim (Option-cases (extract_api_key req)) [
    | inl e ↦ (
      λ h. absurd (ground (arith, e, h)),
      λ (key, h, _). absurd (ground (arith, e, (extract_api_key_iff req key).1 h)),
    )
    | inr (k, e) ↦ (
      λ h. (
        k,
        (extract_api_key_iff req k).0 e,
        ground (arith, e, h, any-IsListed k config.api_keys),
      ),
      λ (key, h, l). ground (
        arith,
        e,
        l,
        (extract_api_key_iff req key).1 h,
        any-IsListed k config.api_keys,
        any-IsListed key config.api_keys,
      ),
    )
  ]

  validate_jwt_iff :
      (config : AuthConfig) (req : Request)
      → (validate_jwt verify config req ≡ passed) ↔ HasCredentials jwt config req
  unfolding validate_jwt
  validate_jwt_iff config req = elim (Option-cases (extract_bearer_token req)) [
    | inl e ↦ (
      λ h. absurd (ground (arith, e, h)),
      λ (token, h, _). absurd (ground (arith, e, (extract_bearer_token_iff req token).1 h)),
    )
    | inr (t, e) ↦ (
      λ h. (t, (extract_bearer_token_iff req t).0 e, ground (arith, e, h)),
      λ (token, h, v). ground (arith, e, v, (extract_bearer_token_iff req token).1 h),
    )
  ]

  by_mode_iff :
      (mode : AuthMode) (config : AuthConfig) (req : Request)
      → (by_mode verify mode config req ≡ passed)
        ↔ ((req.method ≡ codes "GET") ⊎ HasCredentials mode config req)
  unfolding by_mode
  by_mode_iff mode_none config req = (λ e. inr tt, λ h. refl)
  by_mode_iff api_key config req =
      ground (arith, text_eq_iff req.method (codes "GET"), validate_api_key_iff config req)
  by_mode_iff jwt config req =
      ground (arith, text_eq_iff req.method (codes "GET"), validate_jwt_iff config req)

  -- With mode `none` every request passes; with another mode a `GET` request passes, and
  -- any other request passes exactly if it carries a configured key (mode `api-key`) or a
  -- bearer token that `verify` accepts with the configured secret and issuer (mode `jwt`).
  pub auth_middleware_iff :
      (config : AuthConfig) (req : Request)
      → (auth_middleware verify config req ≡ passed)
        ↔ ((req.method ≡ codes "GET") ⊎ HasCredentials config.mode config req)
  unfolding auth_middleware
  auth_middleware_iff config req = by_mode_iff config.mode config req

  by_mode-missing :
      (mode : AuthMode) (config : AuthConfig) (req : Request)
      → mode ≢ mode_none
      → req.method ≢ codes "GET"
      → extract_api_key req ≡ none
      → by_mode verify mode config req ≡ unauthorized (codes "Missing authentication credentials")
  unfolding by_mode validate_api_key validate_jwt extract_api_key
  by_mode-missing mode_none config req n g e = absurd (n refl)
  by_mode-missing api_key config req n g e = ground (arith, text_eq_iff req.method (codes "GET"), e)
  by_mode-missing jwt config req n g e = ground (arith, text_eq_iff req.method (codes "GET"), e)

  -- With authentication on, a request that is no `GET` and carries neither a bearer token nor an
  -- API key is answered as unauthorized, with the message that credentials are missing, whatever
  -- keys or secret are configured.
  pub auth_middleware-missing :
      (config : AuthConfig) (req : Request)
      → config.mode ≢ mode_none
      → req.method ≢ codes "GET"
      → extract_api_key req ≡ none
      → auth_middleware verify config req
        ≡ unauthorized (codes "Missing authentication credentials")
  unfolding auth_middleware
  auth_middleware-missing config req n g e = by_mode-missing config.mode config req n g e
