-- ===== src/Common/Dict.antt =====
-- A JavaScript `Map` with text keys, as the list of its entries in insertion order: `set` on a key
-- that is there keeps the entry's place.
use Prim.Native.Nat.{ℕ, ◌+◌}
use Prim.Native.String.{String}
use mathlib.Core.Path.{◌≡◌, refl}
use mathlib.Core.Logic.{◌≢◌}
use mathlib.Core.Option.{Option, none, some}
use mathlib.Core.List.{List, [], ◌∷◌}
use native.Mathlib.Omega.{arith}
use text.Mathlib.Text.{◌==◌}
use text.Mathlib.TextEquality.{eq_iff}
use text.Mathlib.TextPositions.{eq_refl}
use kb_labs_host_agent.Common.Tests.{if◌then◌else◌}

module _ {κ} {Value : Type κ} where
  -- `map.get(key)`.
  unfoldable pub lookup : String → List (String × Value) → Option Value
  lookup key [] = none
  lookup key ((name, value) ∷ entries) = if name == key then some value else lookup key entries

  -- `map.delete(key)`, which leaves every other entry.
  unfoldable pub remove : String → List (String × Value) → List (String × Value)
  remove key [] = []
  remove key ((name, value) ∷ entries) =
      if name == key then remove key entries else (name, value) ∷ remove key entries

  -- `map.set(key, value)`.
  unfoldable pub insert : String → Value → List (String × Value) → List (String × Value)
  insert key value [] = (key, value) ∷ []
  insert key value ((name, held) ∷ entries) =
      if name == key then (name, value) ∷ entries else (name, held) ∷ insert key value entries

  pub lookup-insert :
      (key name : String) (value : Value) (entries : List (String × Value))
      → lookup name (insert key value entries)
        ≡ (if key == name then some value else lookup name entries)
  unfolding lookup insert
  lookup-insert key name value [] = refl
  lookup-insert key name value ((other, held) ∷ entries) = ground (
    arith,
    eq_iff key name,
    eq_iff other key,
    eq_iff other name,
    lookup-insert key name value entries,
  )

  pub lookup-insert_self :
      (key : String) (value : Value) (entries : List (String × Value))
      → lookup key (insert key value entries) ≡ some value
  lookup-insert_self key value entries = simp (lookup-insert, eq_refl)

  pub lookup-insert_ne :
      (key name : String) (value : Value) (entries : List (String × Value))
      → key ≢ name
      → lookup name (insert key value entries) ≡ lookup name entries
  lookup-insert_ne key name value entries h =
      ground (arith, lookup-insert key name value entries, eq_iff key name)

  pub lookup-remove :
      (key name : String) (entries : List (String × Value))
      → lookup name (remove key entries) ≡ (if key == name then none else lookup name entries)
  unfolding lookup remove
  lookup-remove key name [] = ground (arith)
  lookup-remove key name ((other, held) ∷ entries) =
      ground (
        arith,
        eq_iff key name,
        eq_iff other key,
        eq_iff other name,
        lookup-remove key name entries,
      )

  -- How many entries have the key: at most one in a `Map`.
  unfoldable pub count : String → List (String × Value) → ℕ
  count key [] = 0
  count key ((name, value) ∷ entries) = (if name == key then 1 else 0) + count key entries

  pub count-insert :
      (key name : String) (value : Value) (entries : List (String × Value))
      → lookup key entries ≡ none
      → count name (insert key value entries) ≡ count name entries + (if key == name then 1 else 0)
  unfolding lookup insert count
  count-insert key name value [] h = ground arith
  count-insert key name value ((other, held) ∷ entries) h =
      ground (arith, eq_iff other key, count-insert key name value entries)

  pub count-remove :
      (key name : String) (entries : List (String × Value))
      → count name (remove key entries) ≡ (if key == name then 0 else count name entries)
  unfolding remove count
  count-remove key name [] = ground arith
  count-remove key name ((other, held) ∷ entries) =
      ground
        (arith, eq_iff other key, eq_iff key name, eq_iff other name, count-remove key name entries)

  pub count_of_lookup-eq-none :
      (key : String) (entries : List (String × Value))
      → lookup key entries ≡ none
      → count key entries ≡ 0
  unfolding lookup count
  count_of_lookup-eq-none key [] h = refl
  count_of_lookup-eq-none key ((other, held) ∷ entries) h =
      ground (arith, count_of_lookup-eq-none key entries)

  pub lookup-eq-none_of_count :
      (key : String) (entries : List (String × Value))
      → count key entries ≡ 0
      → lookup key entries ≡ none
  unfolding lookup count
  lookup-eq-none_of_count key [] h = refl
  lookup-eq-none_of_count key ((other, held) ∷ entries) h =
      ground (arith, lookup-eq-none_of_count key entries)
