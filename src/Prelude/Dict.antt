-- ===== src/Prelude/Dict.antt =====
-- A Go map with string keys, as an association list.
use mathlib.Core.Path.{◌≡◌, refl}
use mathlib.Core.Bool.{Bool, true, false}
use mathlib.Core.Option.{Option, none, some}
use mathlib.Core.List.{List, [], ◌∷◌}
use native.Mathlib.Omega.{arith}
use raxd.Prelude.Tests.{if◌then◌else◌}
use raxd.Prelude.Lists.{Bytes, bytes_eq, bytes_eq_sound, bytes_eq_refl}

module _ {V : Type 0} where
  unfoldable pub get : Bytes → List (Bytes × V) → Option V
  get k [] = none
  get k ((j, v) ∷ m) = if bytes_eq k j then some v else get k m

  unfoldable pub set : Bytes → V → List (Bytes × V) → List (Bytes × V)
  set k v [] = (k, v) ∷ []
  set k v ((j, w) ∷ m) = if bytes_eq k j then (j, v) ∷ m else (j, w) ∷ set k v m

  -- `for k, v := range m { if drop(v) { delete(m, k) } }`
  unfoldable pub delete_where : (V → Bool) → List (Bytes × V) → List (Bytes × V)
  delete_where drop [] = []
  delete_where drop ((j, w) ∷ m) =
      let rest = delete_where drop m in if drop w then rest else (j, w) ∷ rest

  pub get-set :
      (j k : Bytes) (v : V) (m : List (Bytes × V))
      → get j (set k v m) ≡ (if bytes_eq j k then some v else get j m)
  unfolding get set
  get-set j k v [] = refl
  get-set j k v ((i, w) ∷ m) = ground (
    arith,
    get-set j k v m,
    bytes_eq_sound k i,
    bytes_eq_sound j i,
    bytes_eq_sound j k,
    bytes_eq_refl i,
    bytes_eq_refl j,
  )

  abbrev pub keep : (V → Bool) → Option V → Option V
  keep drop none = none
  keep drop (some v) = if drop v then none else some v

  unfoldable pub has : Bytes → List (Bytes × V) → Bool
  has k [] = false
  has k ((j, w) ∷ m) = let rest = has k m in if bytes_eq k j then true else rest

  -- No key occurs twice, as in a Go map.
  abbrev pub Distinct : List (Bytes × V) → Type 0
  Distinct [] = Unit
  Distinct ((j, w) ∷ m) = (has j m ≡ false) × Distinct m

  get_none : (k : Bytes) (m : List (Bytes × V)) → has k m ≡ false → get k m ≡ none
  unfolding get has
  get_none k [] h = refl
  get_none k ((j, w) ∷ m) h = ground (arith, get_none k m)

  has-delete_where :
      (drop : V → Bool) (k : Bytes) (m : List (Bytes × V))
      → has k m ≡ false
      → has k (delete_where drop m) ≡ false
  unfolding delete_where has
  has-delete_where drop k [] h = refl
  has-delete_where drop k ((j, w) ∷ m) h = ground (arith, has-delete_where drop k m)

  pub get-delete_where :
      (drop : V → Bool) (k : Bytes) (m : List (Bytes × V))
      → Distinct m
      → get k (delete_where drop m) ≡ keep drop (get k m)
  unfolding get delete_where
  get-delete_where drop k [] d = refl
  get-delete_where drop k ((j, w) ∷ m) d =
      ground (arith, get-delete_where drop k m d.1, get_none j m d.0, bytes_eq_sound k j)

  pub Distinct-delete_where :
      (drop : V → Bool) (m : List (Bytes × V)) → Distinct m → Distinct (delete_where drop m)
  unfolding delete_where
  Distinct-delete_where drop [] d = tt
  Distinct-delete_where drop ((j, w) ∷ m) d =
      ground (arith, Distinct-delete_where drop m d.1, has-delete_where drop j m d.0)

  has-set :
      (j k : Bytes) (v : V) (m : List (Bytes × V))
      → bytes_eq j k ≡ false
      → has j (set k v m) ≡ has j m
  unfolding set has
  has-set j k v [] n = ground arith
  has-set j k v ((i, w) ∷ m) n = ground (arith, has-set j k v m n)

  pub Distinct-set : (k : Bytes) (v : V) (m : List (Bytes × V)) → Distinct m → Distinct (set k v m)
  unfolding set has
  Distinct-set k v [] d = (refl, tt)
  Distinct-set k v ((i, w) ∷ m) d =
      ground (arith, Distinct-set k v m d.1, has-set i k v m, bytes_eq_sound i k, bytes_eq_refl i)
