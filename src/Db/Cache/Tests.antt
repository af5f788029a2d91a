-- ===== src/Db/Cache/Tests.antt =====
-- src/db/database.ts: an outage after a write, over tables that are one number.
use opcua_light_server.Prelude.{
  ◌≡◌, ℕ, suc, refl, Option, some, List, [], ◌∷◌, String, true, false, lookup, insert,
}
use opcua_light_server.Db.Cache.{Answer, answer, read_with_cache, write, opened}
use opcua_light_server.Db.Cache.Freshness.{
  DatabaseCall, reads, writes, AreRegular, run, step, run-read,
}

abbrev query : String → ℕ → Option (List ℕ)
query key n = some (n ∷ [])

abbrev increment : ℕ → ℕ × Answer Unit
increment n = (suc n, answer tt)

abbrev calls : List (DatabaseCall ℕ ℕ)
calls =
    reads true "count" (query "count")
    ∷ writes true increment
    ∷ reads true "count" (query "count")
    ∷ []

calls-AreRegular : AreRegular query calls
calls-AreRegular = ((λ t. refl), ((λ t e h. cc), ((λ t. refl), tt)))

run-read_example :
    (query "count" 4 ≡ some (4 ∷ []))
    × ((read_with_cache true "count" (query "count") (run calls (opened 3))).1 ≡ answer (4 ∷ []))
unfolding run step read_with_cache write lookup insert
run-read_example = run-read query 3 calls false "count" 4 (4 ∷ []) calls-AreRegular refl refl
