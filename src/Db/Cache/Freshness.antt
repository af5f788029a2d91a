-- ===== src/Db/Cache/Freshness.antt =====
-- src/db/database.ts: what the cache answers when the database is down.
use opcua_light_server.Prelude.{
  Bool, true, ◌≡◌, ◌⊎◌, refl, Option, some, List, [], ◌∷◌, String, lookup, lookup-insert, arith,
  eq_iff, Option-cases, inl, inr,
}
use opcua_light_server.Db.Cache.{
  Database, Thrown, Answer, answer, throws, read_with_cache, write, close, opened, update_cache,
  clear_cache,
}

Answer-cases :
    {A : Type 0} (x : Answer A) → ((e : Thrown) × (x ≡ throws e)) ⊎ ((a : A) × (x ≡ answer a))
Answer-cases (throws e) = inl (e, refl)
Answer-cases (answer a) = inr (a, refl)

-- The clients' calls: a read, which gives its query with the key, a write, an entry that is put into the
-- cache, the emptying of the cache, and the end.
pub data DatabaseCall (T D : Type 0) : Type 0 where
  reads : Bool → String → (T → Option (List D)) → DatabaseCall T D
  writes : Bool → (T → T × Answer Unit) → DatabaseCall T D
  updates : String → List D → DatabaseCall T D
  clears closes : DatabaseCall T D

module _ {T D : Type 0} where
  unfoldable pub step : DatabaseCall T D → Database T D → Database T D
  unfolding read_with_cache write
  step (reads online key query) s = (read_with_cache online key query s).0
  step (writes online f) s = (write online f s).0
  step (updates key rows) s = update_cache key rows s
  step clears s = clear_cache s
  step closes s = close s

  unfoldable pub run : List (DatabaseCall T D) → Database T D → Database T D
  unfolding step
  run [] s = s
  run (call ∷ calls) s = run calls (step call s)

module _ {T D : Type 0} (query : String → T → Option (List D)) where
  -- All reads with one key have the key's query, a write that throws changes nothing, and no client
  -- puts entries into the cache. SecurityRepository is not such a client: two of its queries have one
  -- key (Db.Security.get, get_certificate_path), and update_policy puts in an empty entry.
  abbrev pub IsRegular : DatabaseCall T D → Type 0
  IsRegular (reads online key q) = (t : T) → q t ≡ query key t
  IsRegular (writes online f) = (t : T) (e : Thrown) → (f t).1 ≡ throws e → (f t).0 ≡ t
  IsRegular (updates key rows) = ⊥
  IsRegular clears = Unit
  IsRegular closes = Unit

  abbrev pub AreRegular : List (DatabaseCall T D) → Type 0
  AreRegular [] = Unit
  AreRegular (call ∷ calls) = IsRegular call × AreRegular calls

  -- The cache holds what the queries give on the tables as they are.
  abbrev pub IsFresh : Database T D → Type 0
  IsFresh s =
      (t : T) (key : String) (rows : List D)
      → s.db ≡ some t
      → lookup key s.cache ≡ some rows
      → query key t ≡ some rows

  read-IsFresh :
      (online : Bool) (key : String) (q : T → Option (List D)) (s : Database T D)
      → ((t : T) → q t ≡ query key t)
      → IsFresh s
      → IsFresh (read_with_cache online key q s).0
  unfolding read_with_cache
  read-IsFresh online key q s a v t k rows e h = elim (Option-cases s.db) [
    | inl e' ↦ ground (arith, e, h, e')
    | inr (t', e') ↦ elim (Option-cases (q t')) [
      | inl x ↦ ground (arith, e, h, e', x, v t k rows)
      | inr (rows', x) ↦
          ground
            (arith, e, h, e', x, a t', v t k rows, lookup-insert key k rows' s.cache, eq_iff key k)
    ]
  ]

  write-IsFresh :
      (online : Bool) (f : T → T × Answer Unit) (s : Database T D)
      → ((t : T) (e : Thrown) → (f t).1 ≡ throws e → (f t).0 ≡ t)
      → IsFresh s
      → IsFresh (write online f s).0
  unfolding write lookup
  write-IsFresh online f s a v t k rows e h = elim (Option-cases s.db) [
    | inl e' ↦ ground (arith, e, h, e')
    | inr (t', e') ↦ elim (Answer-cases (f t').1) [
      | inl (x, q) ↦ ground (arith, e, h, e', q, v t k rows, a t' x q)
      | inr (u, q) ↦ ground (arith, e, h, e', q, v t k rows)
    ]
  ]

  step-IsFresh :
      (call : DatabaseCall T D) (s : Database T D)
      → IsRegular call
      → IsFresh s
      → IsFresh (step call s)
  unfolding step lookup
  step-IsFresh (reads online key q) s a v = read-IsFresh online key q s a v
  step-IsFresh (writes online f) s a v = write-IsFresh online f s a v
  step-IsFresh (updates key rows) s a v = absurd a
  step-IsFresh clears s a v = λ t k rows e h. ground (arith, h)
  step-IsFresh closes s a v = λ t k rows e h. elim (Option-cases s.db) [
    | inl e' ↦ ground (arith, e, e')
    | inr (t', e') ↦ ground (arith, e, e')
  ]

  run-IsFresh :
      (calls : List (DatabaseCall T D)) (s : Database T D)
      → AreRegular calls
      → IsFresh s
      → IsFresh (run calls s)
  unfolding run
  run-IsFresh [] s a v = v
  run-IsFresh (call ∷ calls) s a v = run-IsFresh calls (step call s) a.1 (step-IsFresh call s a.0 v)

  opened-IsFresh : (t₀ : T) → IsFresh (opened t₀)
  unfolding lookup
  opened-IsFresh t₀ t key rows e h = ground (arith, h)

  read-answer :
      (online : Bool) (key : String) (s : Database T D) (t : T) (rows : List D)
      → IsFresh s
      → s.db ≡ some t
      → (read_with_cache online key (query key) s).1 ≡ answer rows
      → query key t ≡ some rows
  unfolding read_with_cache
  read-answer online key s t rows v e h = elim (Option-cases (lookup key s.cache)) [
    | inl c ↦ elim (Option-cases (query key t)) [
      | inl q ↦ ground (arith, e, h, c, q)
      | inr (rows', q) ↦ ground (arith, e, h, c, q)
    ]
    | inr (old, c) ↦ elim (Option-cases (query key t)) [
      | inl q ↦ ground (arith, e, h, c, q, v t key old e c)
      | inr (rows', q) ↦ ground (arith, e, h, c, q, v t key old e c)
    ]
  ]

  -- From an empty cache, after any reads, writes that change nothing where they throw, outages,
  -- `clearCache` and `close`, if all reads with one key have one query and no client calls
  -- `updateCache`: what `readWithCache` returns while the connection is there, also in an outage, is
  -- what its query gives on the tables as they are, and what it would return without the outage.
  pub run-read :
      (t₀ : T) (calls : List (DatabaseCall T D)) (online : Bool) (key : String) (t : T)
      (rows : List D)
      → AreRegular calls
      → (run calls (opened t₀)).db ≡ some t
      → (read_with_cache online key (query key) (run calls (opened t₀))).1 ≡ answer rows
      → (query key t ≡ some rows)
        × ((read_with_cache true key (query key) (run calls (opened t₀))).1 ≡ answer rows)
  unfolding read_with_cache
  run-read t₀ calls online key t rows a e h =
      let v : IsFresh (run calls (opened t₀)) =
        run-IsFresh calls (opened t₀) a (opened-IsFresh t₀) in
      let q : query key t ≡ some rows =
        read-answer online key (run calls (opened t₀)) t rows v e h in
      (q, rw (e, q))
