-- ===== src/Base/Dict.antt =====
-- `std::map<std::string, V>` as an association list with one entry for a key.
use Prim.Native.Nat.{ℕ, ◌+◌}
use mathlib.Core.Path.{◌≡◌, refl}
use mathlib.Core.List.{List, [], ◌∷◌}
use mathlib.Core.Option.{Option, none, some}
use native.Mathlib.Omega.{arith}
use mett_eagle.Base.Tests.{if◌then◌else◌}
use mett_eagle.Base.Text.{Bytes, bytes_eq, bytes_eq_iff}

module _ {ℓ} {V : Type ℓ} where
  abbrev pub lookup : Bytes → List (Bytes × V) → Option V
  lookup k [] = none
  lookup k ((j, v) ∷ m) = if bytes_eq j k then some v else lookup k m

  -- `map[k] = v`: the entry is replaced, or a new one is made.
  abbrev pub insert : Bytes → V → List (Bytes × V) → List (Bytes × V)
  insert k v [] = (k, v) ∷ []
  insert k v ((j, w) ∷ m) = if bytes_eq j k then (k, v) ∷ m else (j, w) ∷ insert k v m

  abbrev pub erase : Bytes → List (Bytes × V) → List (Bytes × V)
  erase k [] = []
  erase k ((j, w) ∷ m) = if bytes_eq j k then erase k m else (j, w) ∷ erase k m

  -- `map.count (k)`, the number of entries for a key.
  abbrev pub count : Bytes → List (Bytes × V) → ℕ
  count k [] = 0
  count k ((j, w) ∷ m) = if bytes_eq j k then 1 + count k m else count k m

  pub lookup-insert :
      (k j : Bytes) (v : V) (m : List (Bytes × V))
      → lookup j (insert k v m) ≡ (if bytes_eq k j then some v else lookup j m)
  lookup-insert k j v [] = refl
  lookup-insert k j v ((i, w) ∷ m) =
      ground (arith, bytes_eq_iff k j, bytes_eq_iff i k, bytes_eq_iff i j, lookup-insert k j v m)

  pub lookup-erase :
      (k j : Bytes) (m : List (Bytes × V))
      → lookup j (erase k m) ≡ (if bytes_eq k j then none else lookup j m)
  lookup-erase k j [] = ground arith
  lookup-erase k j ((i, w) ∷ m) =
      ground (arith, bytes_eq_iff k j, bytes_eq_iff i k, bytes_eq_iff i j, lookup-erase k j m)

  pub count-insert :
      (k j : Bytes) (v : V) (m : List (Bytes × V))
      → count k m ≡ 0
      → count j (insert k v m) ≡ (if bytes_eq k j then 1 else 0) + count j m
  count-insert k j v [] h = ground arith
  count-insert k j v ((i, w) ∷ m) h = ground (arith, bytes_eq_iff i k, count-insert k j v m)

  pub count-erase :
      (k j : Bytes) (m : List (Bytes × V))
      → count j (erase k m) ≡ (if bytes_eq k j then 0 else count j m)
  count-erase k j [] = ground arith
  count-erase k j ((i, w) ∷ m) =
      ground (arith, bytes_eq_iff k j, bytes_eq_iff i k, bytes_eq_iff i j, count-erase k j m)

  -- The test that the code makes, `count == 0`, and the look-up that it stands for.
  pub lookup_of_count_zero : (k : Bytes) (m : List (Bytes × V)) → count k m ≡ 0 → lookup k m ≡ none
  lookup_of_count_zero k [] h = refl
  lookup_of_count_zero k ((i, w) ∷ m) h = ground (arith, lookup_of_count_zero k m)

  pub count_of_lookup-none : (k : Bytes) (m : List (Bytes × V)) → lookup k m ≡ none → count k m ≡ 0
  count_of_lookup-none k [] h = refl
  count_of_lookup-none k ((i, w) ∷ m) h = ground (arith, count_of_lookup-none k m)
