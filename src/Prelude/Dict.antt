-- ===== src/Prelude/Dict.antt =====
-- Python's `dict` with text keys, in insertion order.
use Prim.Native.String.{String}
use mathlib.Core.Path.{◌≡◌, refl}
use mathlib.Core.Logic.{◌≢◌}
use mathlib.Core.Bool.{Bool}
use mathlib.Core.Option.{Option, none, some}
use mathlib.Core.List.{List, [], ◌∷◌}
use native.Mathlib.Omega.{arith}
use text.Mathlib.TextEquality.{eq_iff}
use gpu_watch.Prelude.Tests.{str_eq, if◌then◌else◌}
use gpu_watch.Prelude.Lists.{filter}

abbrev pub Dict {ℓ} : Type ℓ → Type ℓ
Dict V = List (String × V)

module _ {ℓ} {V : Type ℓ} where
  -- `d.get(k)`
  unfoldable pub lookup : String → Dict V → Option V
  lookup k [] = none
  lookup k ((j, v) ∷ d) = if str_eq j k then some v else lookup k d

  -- `d[k] = v`: a key that is there keeps its place
  unfoldable pub insert : String → V → Dict V → Dict V
  insert k v [] = (k, v) ∷ []
  insert k v ((j, w) ∷ d) = if str_eq j k then (j, v) ∷ d else (j, w) ∷ insert k v d

  abbrev pub value_or : V → Option V → V
  value_or default none = default
  value_or default (some v) = v

  -- `d.get(k, default)`
  abbrev pub get_or : String → V → Dict V → V
  get_or k default d = value_or default (lookup k d)

  pub lookup-insert :
      (k j : String) (v : V) (d : Dict V)
      → lookup j (insert k v d) ≡ (if str_eq k j then some v else lookup j d)
  unfolding lookup insert
  lookup-insert k j v [] = refl
  lookup-insert k j v ((i, w) ∷ d) =
      ground (arith, eq_iff k j, eq_iff i k, eq_iff i j, lookup-insert k j v d)

  pub lookup-insert_self : (k : String) (v : V) (d : Dict V) → lookup k (insert k v d) ≡ some v
  lookup-insert_self k v d = ground (arith, lookup-insert k k v d, eq_iff k k)

  pub lookup-insert_ne :
      (k j : String) (v : V) (d : Dict V) → k ≢ j → lookup j (insert k v d) ≡ lookup j d
  lookup-insert_ne k j v d h = ground (arith, lookup-insert k j v d, eq_iff k j)

  -- No key is listed twice.
  abbrev pub Distinct : Dict V → Type ℓ
  Distinct [] = Unit
  Distinct ((k, v) ∷ d) = (lookup k d ≡ none) × Distinct d

  pub insert-Distinct : (k : String) (v : V) (d : Dict V) → Distinct d → Distinct (insert k v d)
  unfolding insert lookup
  insert-Distinct k v [] h = (refl, tt)
  insert-Distinct k v ((j, w) ∷ d) h =
      ground (arith, eq_iff k j, insert-Distinct k v d h.1, lookup-insert k j v d)

  pub lookup-filter-none :
      (test : String × V → Bool) (k : String) (d : Dict V)
      → lookup k d ≡ none
      → lookup k (filter test d) ≡ none
  unfolding lookup
  lookup-filter-none test k [] h = refl
  lookup-filter-none test k ((j, w) ∷ d) h = ground (arith, eq_iff j k, lookup-filter-none test k d)

  pub filter-Distinct :
      (test : String × V → Bool) (d : Dict V) → Distinct d → Distinct (filter test d)
  filter-Distinct test [] h = tt
  filter-Distinct test ((j, w) ∷ d) h =
      ground (arith, filter-Distinct test d h.1, lookup-filter-none test j d h.0)

  -- A filter keeps the entry of a key, or drops it.
  abbrev pub kept : (String × V → Bool) → String → Option V → Option V
  kept test k none = none
  kept test k (some v) = if test (k, v) then some v else none

  pub lookup-filter :
      (test : String × V → Bool) (k : String) (d : Dict V)
      → Distinct d
      → lookup k (filter test d) ≡ kept test k (lookup k d)
  unfolding lookup
  lookup-filter test k [] h = refl
  lookup-filter test k ((j, w) ∷ d) h =
      ground (arith, eq_iff j k, lookup-filter test k d h.1, lookup-filter-none test j d h.0)
