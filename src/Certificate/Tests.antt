-- ===== src/Certificate/Tests.antt =====
-- src/cert-generator/validation.ts on concrete texts and a request.
use opcua_light_server.Prelude.{◌≡◌, refl, true, false, none, some, [], ◌∷◌, codes}
use opcua_light_server.Certificate.{
  GenerateCertificateRequest, validate_ip_address, validate_dns_name,
}

validate_ip_address_short : validate_ip_address (codes " fe80::1 ") ≡ true
unfolding validate_ip_address
validate_ip_address_short = refl

validate_ip_address_octal : validate_ip_address (codes "10.0.0.01") ≡ false
unfolding validate_ip_address
validate_ip_address_octal = refl

validate_dns_name_underscore : validate_dns_name (codes "plc_1.local") ≡ false
unfolding validate_dns_name
validate_dns_name_underscore = refl

abbrev request : GenerateCertificateRequest
request = record {
  common_name = some (codes "server");
  organization = none;
  country = some (codes "De");
  dns_names = some (some (codes "plc.local") ∷ none ∷ []);
  ip_addresses = some (some (codes "10.0.0.1") ∷ []);
}
