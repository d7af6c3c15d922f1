-- ===== src/Prelude/Maps.antt =====
-- Go's maps with string keys, as association lists that are updated in place, so that writing back
-- what is there changes nothing. The program never depends on a map's iteration order.
use Prim.Native.String.{String}
use mathlib.Core.Path.{◌≡◌, refl}
use mathlib.Core.Logic.{◌≢◌}
use mathlib.Core.Option.{Option, none, some}
use mathlib.Core.List.{List, [], ◌∷◌}
use native.Mathlib.Omega.{arith}
use text.Mathlib.TextEquality.{eq_iff}
use dev_ops_pipeline_orchest.Prelude.Tests.{◌==◌, if◌then◌else◌, string_eq}

abbrev pub Map {ℓ} : Type ℓ → Type ℓ
Map V = List (String × V)

module _ {ℓ} {V : Type ℓ} where
  unfoldable pub lookup : String → Map V → Option V
  lookup key [] = none
  lookup key ((at, v) ∷ kvs) = if at == key then some v else lookup key kvs

  unfoldable pub insert : String → V → Map V → Map V
  insert key v [] = (key, v) ∷ []
  insert key v ((at, old) ∷ kvs) =
      if at == key then (key, v) ∷ kvs else (at, old) ∷ insert key v kvs

  pub lookup-nil : (key : String) → lookup key [] ≡ none
  unfolding lookup
  lookup-nil key = refl

  pub lookup-insert :
      (key at : String) (v : V) (kvs : Map V)
      → lookup at (insert key v kvs) ≡ (if key == at then some v else lookup at kvs)
  unfolding lookup insert
  lookup-insert key at v [] = refl
  lookup-insert key at v ((i, old) ∷ kvs) =
      ground (arith, eq_iff key at, eq_iff i key, eq_iff i at, lookup-insert key at v kvs)

  pub lookup-insert_self :
      (key : String) (v : V) (kvs : Map V) → lookup key (insert key v kvs) ≡ some v
  lookup-insert_self key v kvs = ground (arith, eq_iff key key, lookup-insert key key v kvs)

  pub lookup-insert_ne :
      (key at : String) (v : V) (kvs : Map V)
      → key ≢ at
      → lookup at (insert key v kvs) ≡ lookup at kvs
  lookup-insert_ne key at v kvs h = ground (arith, eq_iff key at, lookup-insert key at v kvs)

  -- Writing back the value that is there changes nothing.
  pub insert-lookup :
      (key : String) (v : V) (kvs : Map V) → lookup key kvs ≡ some v → insert key v kvs ≡ kvs
  unfolding lookup insert
  insert-lookup key v [] h = cc
  insert-lookup key v ((i, old) ∷ kvs) h = ground (arith, eq_iff i key, insert-lookup key v kvs)

  pub insert-insert :
      (key : String) (v old : V) (kvs : Map V)
      → insert key v (insert key old kvs) ≡ insert key v kvs
  unfolding insert
  insert-insert key v old [] = ground (arith, eq_iff key key)
  insert-insert key v old ((i, u) ∷ kvs) =
      ground (arith, eq_iff i key, eq_iff key key, insert-insert key v old kvs)

pub ruleset map_laws = (lookup-nil, lookup-insert, lookup-insert_self)
