-- ===== src/Db/Cache.antt =====
-- src/db/database.ts: the connection, and the cache that stands in for it when it is down. `T` is what
-- the tables hold and `D` what a query returns a list of; `online` says whether SQLite answers.
pub mod Freshness
pub mod Tests
use opcua_light_server.Prelude.{
  ℕ, suc, Bool, true, false, Option, none, some, List, [], ◌∷◌, ◌&&◌, String, is_some,
  if◌then◌else◌, Dict, lookup, insert,
}

-- `cached_at` of an entry is never read.
pub record Database (T D : Type 0) : Type 0 where
  pub db : Option T
  pub cache : Dict (List D)
  pub accessible : Bool

-- What a call returns; `none` is the exception that it throws.
pub data Thrown : Type 0 where
  unavailable failure : Thrown

pub data Answer (A : Type 0) : Type 0 where
  answer : A → Answer A
  throws : Thrown → Answer A

module _ {T D : Type 0} where
  -- `isAccessible`
  abbrev pub check_access : Bool → Database T D → Database T D
  check_access online s = record s { accessible = is_some s.db && online }

  -- `getConnection`
  abbrev pub get_connection : Database T D → Answer T
  get_connection s = elim s.db [
    | none ↦ throws unavailable
    | some t ↦ if s.accessible then answer t else throws unavailable
  ]

  abbrev pub update_cache : String → List D → Database T D → Database T D
  update_cache key rows s = record s { cache = insert key rows s.cache }

  abbrev pub get_from_cache : String → Database T D → Option (List D)
  get_from_cache key s = lookup key s.cache

  abbrev pub clear_cache : Database T D → Database T D
  clear_cache s = record s { cache = [] }

  abbrev pub from_cache : String → Database T D → Answer (List D)
  from_cache key s = elim (get_from_cache key s) [
    | none ↦ throws unavailable
    | some rows ↦ answer rows
  ]

  -- The query is `none` where it throws.
  unfoldable pub read_with_cache :
      Bool → String → (T → Option (List D)) → Database T D → Database T D × Answer (List D)
  read_with_cache online key query s =
      let s₁ : Database T D = check_access online s in
      elim s.db [
        | none ↦ (s₁, from_cache key s₁)
        | some t ↦
            if online
            then elim (query t) [
              | none ↦ (s₁, from_cache key s₁)
              | some rows ↦ (update_cache key rows s₁, answer rows)
            ]
            else (s₁, from_cache key s₁)
      ]

  -- What is written before the function throws stays.
  unfoldable pub write :
      {A : Type 0} → Bool → (T → T × Answer A) → Database T D → Database T D × Answer A
  write online f s =
      let s₁ : Database T D = check_access online s in
      elim s.db [
        | none ↦ (s₁, throws unavailable)
        | some t ↦
            if online
            then elim (f t).1 [
              | throws e ↦ (record s₁ { db = some (f t).0 }, throws e)
              | answer a ↦ (clear_cache (record s₁ { db = some (f t).0 }), answer a)
            ]
            else (s₁, throws unavailable)
      ]

  abbrev pub close : Database T D → Database T D
  close s = if is_some s.db then record s { db = none; accessible = false } else s

  abbrev pub opened : T → Database T D
  opened t = record { db = some t; cache = []; accessible = true }
