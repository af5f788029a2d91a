-- ===== src/Tofu/Tests.antt =====
-- src/tofu-manager/tofu-manager.ts on stores with one certificate.
use opcua_light_server.Prelude.{
  ℕ, ◌≡◌, refl, inr, true, false, none, some, List, [], ◌∷◌, codes, lookup,
}
use opcua_light_server.Process.Manager.{Env, init}
use opcua_light_server.Tofu.{TofuManager, find, reject_certificate, trust_certificate}
use opcua_light_server.Tofu.Stores.{IsDisjoint}
use opcua_light_server.Tofu.Calls.{
  Circumstance, TofuCall, initializes, rejects, trusts, deletes, run, run-IsDisjoint,
  trust_certificate-reject_certificate,
}

abbrev at_noon : Env
at_noon = record { now = 1000; hostname = codes "host"; win32 = false; status_file = none }

abbrev one_trusted : TofuManager ℕ
one_trusted = record {
  trusted_store = some (("ab", 5) ∷ []);
  rejected_store = some [];
  logged = [];
  signals = [];
}

one_trusted-IsDisjoint : IsDisjoint one_trusted
unfolding find lookup
one_trusted-IsDisjoint j = inr refl

abbrev no_fault : Circumstance
no_fault = record { env = at_noon; accepts = some true; manager = init; fault = none }

abbrev tofu_calls : List (Circumstance × TofuCall)
tofu_calls =
    (no_fault, initializes none)
    ∷ (no_fault, rejects "ab")
    ∷ (no_fault, trusts "ab")
    ∷ (no_fault, deletes "ab")
    ∷ []

run-IsDisjoint_example : IsDisjoint (run tofu_calls one_trusted)
run-IsDisjoint_example = run-IsDisjoint tofu_calls one_trusted one_trusted-IsDisjoint

trust_certificate-reject_certificate_example :
    let r = (reject_certificate at_noon (some true) init none "ab" one_trusted).0 in
    let r' = (trust_certificate at_noon (some true) init none "ab" r).0 in
    (find "ab" r'.trusted_store ≡ find "ab" one_trusted.trusted_store)
    × (find "ab" r'.rejected_store ≡ none)
unfolding find lookup
trust_certificate-reject_certificate_example =
    trust_certificate-reject_certificate at_noon (some true) init "ab" 5 one_trusted
      (("ab", 5) ∷ []) [] "ab" refl refl refl
