-- ===== src/Db/Security.antt =====
-- src/db/repositories/security-repository.ts: the one row of the security configuration, read through
-- the cache of src/db/database.ts, and `readCertificateExpiry` of src/cert-generator/index.ts.
pub mod Updates
pub mod Tests
use opcua_light_server.Prelude.{
  ℕ, suc, ◌-◌, ◌/◌, Bool, true, false, ◌&&◌, ◌||◌, not, Option, none, some, List, [], ◌∷◌, any, map,
  String, Text, codes, text_eq, is_empty, trim, leb, ltb, is_some, if◌then◌else◌,
}
use opcua_light_server.Db.Cache.{
  Database, Thrown, unavailable, failure, Answer, answer, throws, read_with_cache, write,
  update_cache,
}

pub record SecurityConfigRow : Type 0 where
  pub mode : Text
  pub certificate_path : Option Text
  pub private_key_path : Option Text

-- The rows that the repository's queries return, all of which it caches under one key.
pub data CachedRow : Type 0 where
  full : SecurityConfigRow → CachedRow
  only_certificate : Option Text → CachedRow

pub record SecurityConfig : Type 0 where
  pub mode : Text
  pub certificate_path : Option Text
  pub certificate_valid : Option Bool
  pub private_key_configured : Bool
  pub certificate_expires_at : Option Text
  pub certificate_remaining_days : Option ℕ

pub record HttpsConfig : Type 0 where
  pub cert_path : Text
  pub key_path : Text

-- What a parsed certificate says, in milliseconds.
pub record Validity : Type 0 where
  pub not_before : ℕ
  pub not_after : ℕ

pub record CertExpiryInfo : Type 0 where
  pub expires_at : Text
  pub created_at : Text
  pub remaining_days : ℕ

-- The row `id = 1`, where it is.
abbrev pub SecurityDb : Type 0
SecurityDb = Database (Option SecurityConfigRow) CachedRow

abbrev pub cache_key : String
cache_key = "security_config"

abbrev pub valid_modes : List Text
valid_modes = codes "None" ∷ codes "Sign" ∷ codes "SignAndEncrypt" ∷ []

abbrev pub milliseconds_per_day : ℕ
milliseconds_per_day = 86400000

abbrev pub query_full : Option SecurityConfigRow → Option (List CachedRow)
query_full none = some []
query_full (some row) = some (full row ∷ [])

abbrev pub query_certificate : Option SecurityConfigRow → Option (List CachedRow)
query_certificate none = some []
query_certificate (some row) = some (only_certificate row.certificate_path ∷ [])

-- `if (!path)`
abbrev pub is_unset : Option Text → Bool
is_unset none = true
is_unset (some p) = is_empty p

abbrev pub default_config : SecurityConfig
default_config = record {
  mode = codes "None";
  certificate_path = none;
  certificate_valid = none;
  private_key_configured = false;
  certificate_expires_at = none;
  certificate_remaining_days = none;
}

-- `UPDATE security_config SET … WHERE id = 1`
abbrev pub map_row :
    (SecurityConfigRow → SecurityConfigRow) → Option SecurityConfigRow → Option SecurityConfigRow
map_row f none = none
map_row f (some row) = some (f row)

-- `parse` reads and parses the file, and `iso` prints a time.
module _ (parse : Text → Option Validity) (iso : ℕ → Text) (now : ℕ) where
  unfoldable pub read_certificate_expiry : Text → Option CertExpiryInfo
  read_certificate_expiry path = elim (parse path) [
    | none ↦ none
    | some v ↦ some (record {
      expires_at = iso v.not_after;
      created_at = iso v.not_before;
      remaining_days = (v.not_after - now) / milliseconds_per_day;
    })
  ]

  unfoldable pub get_certificate_expiry_info : Option Text → Option CertExpiryInfo
  unfolding read_certificate_expiry
  get_certificate_expiry_info none = none
  get_certificate_expiry_info (some path) =
      if is_empty path then none else read_certificate_expiry path

  unfoldable pub to_config : SecurityConfigRow → SecurityConfig
  unfolding get_certificate_expiry_info
  to_config row =
      let info : Option CertExpiryInfo = get_certificate_expiry_info row.certificate_path in
      let valid : Bool = elim info [
        | none ↦ false
        | some i ↦ is_some row.certificate_path && ltb 0 i.remaining_days
      ] in
      record {
        mode = row.mode;
        certificate_path = row.certificate_path;
        certificate_valid = if is_unset row.certificate_path then none else some valid;
        private_key_configured = not (is_unset row.private_key_path);
        certificate_expires_at = elim info [ none ↦ none | some i ↦ some i.expires_at ];
        certificate_remaining_days = elim info [ none ↦ none | some i ↦ some i.remaining_days ];
      }

  -- `row.private_key_path.length` throws where the cached row has no such field.
  unfoldable pub config_of : List CachedRow → Answer SecurityConfig
  unfolding to_config
  config_of [] = answer default_config
  config_of (full row ∷ rows) = answer (to_config row)
  config_of (only_certificate path ∷ rows) = throws failure

  unfoldable pub get : Bool → SecurityDb → SecurityDb × Answer SecurityConfig
  unfolding read_with_cache config_of
  get online s =
      let read : SecurityDb × Answer (List CachedRow) =
        read_with_cache online cache_key query_full s in
      (read.0, elim read.1 [ throws e ↦ throws e | answer rows ↦ config_of rows ])

  -- An `UPDATE` of the row, the reset of the cache, and `get`.
  unfoldable pub update :
      Bool
      → Bool
      → (SecurityConfigRow → SecurityConfigRow)
      → SecurityDb
      → SecurityDb × Answer SecurityConfig
  unfolding write get
  update online online' f s =
      let written : SecurityDb × Answer Unit = write online (λ t. (map_row f t, answer tt)) s in
      elim written.1 [
        | throws e ↦ (written.0, throws e)
        | answer _ ↦ get online' (update_cache cache_key [] written.0)
      ]

  unfoldable pub update_policy :
      Bool → Bool → Text → SecurityDb → SecurityDb × Answer SecurityConfig
  unfolding update
  update_policy online online' mode s =
      if any (λ m. text_eq m mode) valid_modes
      then update online online' (λ row. record row { mode = mode }) s
      else (s, throws failure)

  unfoldable pub update_certificate :
      Bool → Bool → Text → Text → SecurityDb → SecurityDb × Answer SecurityConfig
  unfolding update
  update_certificate online online' certificate_path private_key_path s =
      if is_empty (trim certificate_path) || is_empty (trim private_key_path)
      then (s, throws failure)
      else update online online'
          (λ row. record row {
            certificate_path = some certificate_path;
            private_key_path = some private_key_path;
          })
          s

unfoldable pub https_config_of : List CachedRow → Option HttpsConfig
https_config_of [] = none
https_config_of (only_certificate path ∷ rows) = none
https_config_of (full row ∷ rows) = elim row.certificate_path [
  | none ↦ none
  | some c ↦ elim row.private_key_path [
    | none ↦ none
    | some k ↦
        if is_empty c || is_empty k then none else some (record { cert_path = c; key_path = k })
  ]
]

unfoldable pub get_https_config : Bool → SecurityDb → SecurityDb × Answer (Option HttpsConfig)
unfolding read_with_cache https_config_of
get_https_config online s =
    let read : SecurityDb × Answer (List CachedRow) =
      read_with_cache online cache_key query_full s in
    (read.0, elim read.1 [ throws e ↦ throws e | answer rows ↦ answer (https_config_of rows) ])

unfoldable pub certificate_path_of : List CachedRow → Option Text
certificate_path_of [] = none
certificate_path_of (full row ∷ rows) =
    if is_unset row.certificate_path then none else row.certificate_path
certificate_path_of (only_certificate path ∷ rows) = if is_unset path then none else path

unfoldable pub get_certificate_path : Bool → SecurityDb → SecurityDb × Answer (Option Text)
unfolding read_with_cache certificate_path_of
get_certificate_path online s =
    let read : SecurityDb × Answer (List CachedRow) =
      read_with_cache online cache_key query_certificate s in
    (read.0, elim read.1 [ throws e ↦ throws e | answer rows ↦ answer (certificate_path_of rows) ])
