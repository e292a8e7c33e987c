-- ===== src/Base/Dicts.antt =====
-- `Map<string, V>` as an association list in insertion order: `set` keeps a key's place.
use Prim.Native.String.{String}
use mathlib.Core.Path.{◌≡◌, refl}
use mathlib.Core.Option.{Option, none, some}
use mathlib.Core.List.{List, [], ◌∷◌}
use native.Mathlib.Omega.{arith}
use text.Mathlib.Text.{◌==◌ as str_eq}
use text.Mathlib.TextEquality.{eq_iff}
use birthub_360_innovation.Base.Tests.{if◌then◌else◌}

abbrev pub Dict {ℓ} : Type ℓ → Type ℓ
Dict V = List (String × V)

module _ {ℓ} {V : Type ℓ} where
  abbrev pub lookup : String → Dict V → Option V
  lookup k [] = none
  lookup k ((j, v) ∷ m) = if str_eq j k then some v else lookup k m

  unfoldable pub insert : String → V → Dict V → Dict V
  insert k v [] = (k, v) ∷ []
  insert k v ((j, w) ∷ m) = if str_eq j k then (k, v) ∷ m else (j, w) ∷ insert k v m

  -- Reading back after a write.
  pub lookup-insert :
      (key other : String) (value : V) (m : Dict V)
      → lookup other (insert key value m)
        ≡ (if str_eq key other then some value else lookup other m)
  unfolding insert
  lookup-insert key other value [] = refl
  lookup-insert key other value ((i, w) ∷ m) =
      ground
        (arith, lookup-insert key other value m, eq_iff i other, eq_iff i key, eq_iff key other)

  -- `delete`: the key has one entry at most in a `Map`, and none is left.
  unfoldable pub remove : String → Dict V → Dict V
  remove k [] = []
  remove k ((j, v) ∷ m) = if str_eq j k then remove k m else (j, v) ∷ remove k m

  pub lookup-remove :
      (key other : String) (m : Dict V)
      → lookup other (remove key m) ≡ (if str_eq key other then none else lookup other m)
  unfolding remove
  lookup-remove key other [] = ground arith
  lookup-remove key other ((i, w) ∷ m) =
      ground (arith, lookup-remove key other m, eq_iff i key, eq_iff i other, eq_iff key other)
