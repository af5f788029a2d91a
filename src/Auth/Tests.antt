-- ===== src/Auth/Tests.antt =====
-- src/auth/middleware.ts on a request that carries a configured key.
use opcua_light_server.Prelude.{◌≡◌, ◌≢◌, ◌↔◌, ◌⊎◌, Option, none, some, [], ◌∷◌, Text, codes}
use opcua_light_server.Auth.{
  AuthConfig, api_key, Request, single, load_auth_config, AuthEnvironment, mode_none, Verification,
  refused, passed, auth_middleware,
}
use opcua_light_server.Auth.Access.{HasCredentials, auth_middleware_iff}

abbrev one_key : AuthConfig
one_key = record {
  mode = api_key;
  api_keys = codes "secret" ∷ [];
  jwt_secret = [];
  jwt_issuer = none;
}

abbrev post : Request
post = record {
  method = codes "POST";
  authorization = none;
  x_api_key = some (single (codes "secret"));
}

abbrev refuse : Text → Text → Option Text → Verification
refuse token key issuer = refused

auth_middleware_iff_example :
    (auth_middleware refuse one_key post ≡ passed)
    ↔ ((codes "POST" ≡ codes "GET") ⊎ HasCredentials refuse api_key one_key post)
auth_middleware_iff_example = auth_middleware_iff refuse one_key post

abbrev with_key : AuthEnvironment
with_key = record {
  auth_mode = some (codes "api-key");
  api_keys = some (codes "secret, ");
  jwt_secret = none;
  jwt_issuer = none;
}

abbrev bare : Request
bare = record { method = codes "POST"; authorization = none; x_api_key = none }

with_key-guards : (load_auth_config with_key).mode ≢ mode_none
unfolding load_auth_config
with_key-guards e = cc

post_get : codes "POST" ≢ codes "GET"
post_get e = cc
