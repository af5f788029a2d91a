-- ===== src/Db/Security/Tests.antt =====
-- src/db/repositories/security-repository.ts: the theorems at a row and its cache.
use opcua_light_server.Prelude.{
  ◌≡◌, ◌↔◌, ◌≤◌, ◌+◌, ℕ, refl, Option, some, Text, codes, trim, true, false,
}
use opcua_light_server.Db.Cache.{answer, throws, failure, opened}
use opcua_light_server.Db.Security.{
  SecurityConfigRow, Validity, SecurityDb, milliseconds_per_day, to_config, get, update_certificate,
  get_https_config, get_certificate_path, update_policy, default_config,
}
use opcua_light_server.Db.Security.Updates.{
  update_certificate-get_https_config, certificate_valid_iff, get-get_certificate_path,
  update_policy-outage,
}

abbrev parse : Text → Option Validity
parse path = some (record { not_before = 0; not_after = 86500000 })

abbrev iso : ℕ → Text
iso n = codes "1970-01-02"

abbrev row : SecurityConfigRow
row = record {
  mode = codes "Sign";
  certificate_path = some (codes "/c.der");
  private_key_path = some (codes "/k.pem");
}

abbrev store : SecurityDb
store = opened (some row)

update_certificate-get_https_config_example :
    ((update_certificate parse iso 0 true true (codes "/d") (codes "/e") store).1
      ≡ answer (
          to_config parse iso 0 (record row {
            certificate_path = some (codes "/d");
            private_key_path = some (codes "/e");
          })))
    × ((get_https_config false
          (update_certificate parse iso 0 true true (codes "/d") (codes "/e") store).0).1
        ≡ answer (some (record { cert_path = codes "/d"; key_path = codes "/e" })))
unfolding trim
update_certificate-get_https_config_example =
    update_certificate-get_https_config parse iso 0 false (codes "/d") (codes "/e") row store refl
      refl refl

certificate_valid_iff_example :
    ((to_config parse iso 0 row).certificate_valid ≡ some true)
    ↔ (0 + milliseconds_per_day ≤ 86500000)
certificate_valid_iff_example =
    certificate_valid_iff parse iso 0 row (codes "/c.der")
      (record { not_before = 0; not_after = 86500000 }) refl refl refl

get-get_certificate_path_example :
    (get parse iso 0 false (get_certificate_path true store).0).1 ≡ throws failure
get-get_certificate_path_example = get-get_certificate_path parse iso 0 row store refl

update_policy-outage_example :
    ((update_policy parse iso 0 true false (codes "None") store).1 ≡ answer default_config)
    × ((get parse iso 0 false (update_policy parse iso 0 true false (codes "None") store).0).1
        ≡ answer default_config)
    × ((update_policy parse iso 0 true false (codes "None") store).0.db
        ≡ some (some (record row { mode = codes "None" })))
update_policy-outage_example = update_policy-outage parse iso 0 (codes "None") row store refl refl
