-- ===== src/Prelude/Dicts.antt =====
-- A JavaScript `Map` with text keys, as its entries in insertion order: `set` on a key that is
-- there keeps its place, on a new key appends, and `delete` removes the entry.
use Prim.Native.String.{String}
use mathlib.Core.Path.{◌≡◌, refl}
use mathlib.Core.Bool.{Bool, false}
use mathlib.Core.Option.{Option, none, some}
use mathlib.Core.List.{List, [], ◌∷◌, ◌++◌, map}
use native.Mathlib.Omega.{arith}
use text.Mathlib.TextEquality.{eq_iff}
use text.Mathlib.TextPositions.{eq_refl}
use opcua_light_server.Prelude.Tests.{str_eq, if◌then◌else◌, is_some}

abbrev pub Dict {ℓ} : Type ℓ → Type ℓ
Dict V = List (String × V)

module _ {ℓ} {V : Type ℓ} where
  unfoldable pub lookup : String → Dict V → Option V
  lookup k [] = none
  lookup k ((j, v) ∷ d) = if str_eq j k then some v else lookup k d

  abbrev pub has : String → Dict V → Bool
  has k d = is_some (lookup k d)

  unfoldable pub insert : String → V → Dict V → Dict V
  insert k v [] = (k, v) ∷ []
  insert k v ((j, w) ∷ d) = if str_eq j k then (k, v) ∷ d else (j, w) ∷ insert k v d

  unfoldable pub delete : String → Dict V → Dict V
  delete k [] = []
  delete k ((j, w) ∷ d) = if str_eq j k then delete k d else (j, w) ∷ delete k d

  abbrev pub values : Dict V → List V
  values = map (λ e. e.1)

  abbrev pub keys : Dict V → List String
  keys = map (λ e. e.0)

  pub lookup-insert :
      (k j : String) (v : V) (d : Dict V)
      → lookup j (insert k v d) ≡ (if str_eq k j then some v else lookup j d)
  unfolding lookup insert
  lookup-insert k j v [] = refl
  lookup-insert k j v ((i, w) ∷ d) =
      ground (arith, eq_iff k j, eq_iff i k, eq_iff i j, lookup-insert k j v d)

  pub lookup-delete :
      (k j : String) (d : Dict V)
      → lookup j (delete k d) ≡ (if str_eq k j then none else lookup j d)
  unfolding lookup delete
  lookup-delete k j [] = ground arith
  lookup-delete k j ((i, w) ∷ d) =
      ground (arith, eq_iff k j, eq_iff i k, eq_iff i j, lookup-delete k j d)

  -- No two entries have one key: what every `Map` guarantees.
  abbrev pub HasUniqueKeys : Dict V → Type ℓ
  HasUniqueKeys [] = Unit
  HasUniqueKeys ((k, v) ∷ d) = (lookup k d ≡ none) × HasUniqueKeys d

  pub insert-HasUniqueKeys :
      (k : String) (v : V) (d : Dict V) → HasUniqueKeys d → HasUniqueKeys (insert k v d)
  unfolding lookup insert
  insert-HasUniqueKeys k v [] u = (refl, tt)
  insert-HasUniqueKeys k v ((i, w) ∷ d) u =
      ground (arith, eq_iff i k, eq_iff k i, lookup-insert k i v d, insert-HasUniqueKeys k v d u.1)

  pub delete-HasUniqueKeys :
      (k : String) (d : Dict V) → HasUniqueKeys d → HasUniqueKeys (delete k d)
  unfolding lookup delete
  delete-HasUniqueKeys k [] u = tt
  delete-HasUniqueKeys k ((i, w) ∷ d) u =
      ground (arith, eq_iff i k, eq_iff k i, lookup-delete k i d, delete-HasUniqueKeys k d u.1)

  pub delete-eq_of_lookup : (k : String) (d : Dict V) → lookup k d ≡ none → delete k d ≡ d
  unfolding lookup delete
  delete-eq_of_lookup k [] h = refl
  delete-eq_of_lookup k ((i, w) ∷ d) h = ground (arith, delete-eq_of_lookup k d)

  lookup-middle :
      (pre : Dict V) (i k : String) (v : V) (d : Dict V)
      → lookup i (pre ++ (k, v) ∷ d) ≡ none
      → str_eq k i ≡ false
  unfolding lookup
  lookup-middle [] i k v d h = ground arith
  lookup-middle ((j, w) ∷ pre) i k v d h = ground (arith, lookup-middle pre i k v d)

  -- Removing an entry leaves those before and behind it.
  pub delete-middle :
      (pre : Dict V) (k : String) (v : V) (d : Dict V)
      → HasUniqueKeys (pre ++ (k, v) ∷ d)
      → delete k (pre ++ (k, v) ∷ d) ≡ pre ++ d
  unfolding lookup delete
  delete-middle [] k v d u = ground (arith, eq_refl k, delete-eq_of_lookup k d)
  delete-middle ((i, w) ∷ pre) k v d u =
      ground (arith, eq_iff i k, lookup-middle pre i k v d, delete-middle pre k v d u.1)

  pub lookup-middle_self :
      (pre : Dict V) (k : String) (v : V) (d : Dict V)
      → HasUniqueKeys (pre ++ (k, v) ∷ d)
      → lookup k (pre ++ (k, v) ∷ d) ≡ some v
  unfolding lookup
  lookup-middle_self [] k v d u = ground (arith, eq_refl k)
  lookup-middle_self ((i, w) ∷ pre) k v d u =
      ground
        (arith, eq_iff i k, eq_iff k i, lookup-middle pre i k v d, lookup-middle_self pre k v d u.1)
