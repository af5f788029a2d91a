-- ===== src/Db/Security/Updates.antt =====
-- src/db/repositories/security-repository.ts: what the reads return after updates, with and without the database.
use opcua_light_server.Prelude.{
  ℕ, ◌+◌, ◌≤◌, ◌≡◌, ◌↔◌, refl, Bool, true, false, Option, some, [], ◌∷◌, any, Text, text_eq,
  is_empty, trim, arith, lookup, insert, lookup-insert,
}
use opcua_light_server.Db.Cache.{failure, answer, throws, read_with_cache, write}
use opcua_light_server.Db.Security.{
  SecurityConfigRow, only_certificate, Validity, SecurityDb, cache_key, valid_modes,
  milliseconds_per_day, read_certificate_expiry, get_certificate_expiry_info, to_config,
  default_config, config_of, get, update, update_policy, update_certificate, https_config_of,
  get_https_config, get_certificate_path,
}

is_empty_of_trim : (c : Text) → is_empty (trim c) ≡ false → is_empty c ≡ false
unfolding trim
is_empty_of_trim [] h = h
is_empty_of_trim (c ∷ s) h = refl

module _ (parse : Text → Option Validity) (iso : ℕ → Text) (now : ℕ) where
  update-online :
      (online : Bool) (f : SecurityConfigRow → SecurityConfigRow) (row : SecurityConfigRow)
      (s : SecurityDb)
      → s.db ≡ some (some row)
      → update parse iso now true online f s
        ≡ get parse iso now online
            (record { db = some (some (f row)); cache = (cache_key, []) ∷ []; accessible = true })
  unfolding update write insert
  update-online online f row s e = ground (arith, e)

  update_certificate-online :
      (c k : Text) (row : SecurityConfigRow) (s : SecurityDb)
      → s.db ≡ some (some row)
      → is_empty (trim c) ≡ false
      → is_empty (trim k) ≡ false
      → update_certificate parse iso now true true c k s
        ≡ get parse iso now true (record {
          db = some (some (record row { certificate_path = some c; private_key_path = some k }));
          cache = (cache_key, []) ∷ [];
          accessible = true;
        })
  unfolding update_certificate
  update_certificate-online c k row s e hc hk = rw (hc, hk) (update-online true _ row s e)

  update_policy-online :
      (online : Bool) (mode : Text) (row : SecurityConfigRow) (s : SecurityDb)
      → s.db ≡ some (some row)
      → any (λ m. text_eq m mode) valid_modes ≡ true
      → update_policy parse iso now true online mode s
        ≡ get parse iso now online (record {
          db = some (some (record row { mode = mode }));
          cache = (cache_key, []) ∷ [];
          accessible = true;
        })
  unfolding update_policy
  update_policy-online online mode row s e h = rw h (update-online online _ row s e)

  -- With the database up and its row there, `updateCertificate` with paths that are not blank returns
  -- the row with both paths, and `getHttpsConfig` then returns them, also while the database is down.
  pub update_certificate-get_https_config :
      (online : Bool) (c k : Text) (row : SecurityConfigRow) (s : SecurityDb)
      → s.db ≡ some (some row)
      → is_empty (trim c) ≡ false
      → is_empty (trim k) ≡ false
      → ((update_certificate parse iso now true true c k s).1
          ≡ answer (
              to_config parse iso now
                (record row { certificate_path = some c; private_key_path = some k })))
        × ((get_https_config online (update_certificate parse iso now true true c k s).0).1
            ≡ answer (some (record { cert_path = c; key_path = k })))
  unfolding get read_with_cache config_of get_https_config https_config_of lookup insert
  update_certificate-get_https_config true c k row s e hc hk =
      rw (update_certificate-online c k row s e hc hk)
        (refl, rw (is_empty_of_trim c hc, is_empty_of_trim k hk) refl)
  update_certificate-get_https_config false c k row s e hc hk =
      rw (update_certificate-online c k row s e hc hk)
        (refl, rw (is_empty_of_trim c hc, is_empty_of_trim k hk) refl)

  -- A certificate that can be read counts as valid exactly if it is good for at least one more whole
  -- day.
  pub certificate_valid_iff :
      (row : SecurityConfigRow) (path : Text) (v : Validity)
      → row.certificate_path ≡ some path
      → is_empty path ≡ false
      → parse path ≡ some v
      → ((to_config parse iso now row).certificate_valid ≡ some true)
        ↔ (now + milliseconds_per_day ≤ v.not_after)
  unfolding to_config get_certificate_expiry_info read_certificate_expiry
  certificate_valid_iff row path v e h p = ground (arith, e, h, p)

  -- After `getCertificatePath`, `get` throws an exception of its own while the database is down: the cached row
  -- is of another query and has no private key.
  pub get-get_certificate_path :
      (row : SecurityConfigRow) (s : SecurityDb)
      → s.db ≡ some (some row)
      → (get parse iso now false (get_certificate_path true s).0).1 ≡ throws failure
  unfolding get read_with_cache config_of get_certificate_path
  get-get_certificate_path row s e = ground (
    arith,
    e,
    lookup-insert cache_key cache_key (only_certificate row.certificate_path ∷ []) s.cache,
  )

  -- `updatePolicy` with a valid mode, when the database is down for the read that follows the write:
  -- it returns the mode `None` and no key, and so does every `get` until the database is back, while
  -- the row holds the new mode.
  pub update_policy-outage :
      (mode : Text) (row : SecurityConfigRow) (s : SecurityDb)
      → s.db ≡ some (some row)
      → any (λ m. text_eq m mode) valid_modes ≡ true
      → ((update_policy parse iso now true false mode s).1 ≡ answer default_config)
        × ((get parse iso now false (update_policy parse iso now true false mode s).0).1
            ≡ answer default_config)
        × ((update_policy parse iso now true false mode s).0.db
            ≡ some (some (record row { mode = mode })))
  unfolding get read_with_cache config_of lookup
  update_policy-outage mode row s e h =
      rw (update_policy-online false mode row s e h) (refl, refl, refl)
