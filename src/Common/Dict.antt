-- ===== src/Common/Dict.antt =====
-- A `Map` with texts for keys, as a list of its entries in the order of insertion.
pub mod Keyed
use Prim.Native.String.{String}
use mathlib.Core.Path.{◌≡◌, refl}
use mathlib.Core.Logic.{◌≢◌}
use mathlib.Core.Bool.{cond}
use mathlib.Core.Option.{Option, none, some}
use mathlib.Core.List.{List, [], ◌∷◌, map}
use native.Mathlib.Omega.{arith}
use text.Mathlib.Text.{◌==◌}
use text.Mathlib.TextEquality.{eq_iff}
use text.Mathlib.TextPositions.{eq_refl}

abbrev pub Dict {ℓ} : Type ℓ → Type ℓ
Dict V = List (String × V)

module _ {ℓ} {V : Type ℓ} where
  unfoldable pub lookup : String → Dict V → Option V
  lookup k [] = none
  lookup k ((j, v) ∷ m) = cond (j == k) (some v) (lookup k m)

  -- `m.set(k, v)`: an entry that is there keeps its place.
  unfoldable pub insert : String → V → Dict V → Dict V
  insert k v [] = (k, v) ∷ []
  insert k v ((j, w) ∷ m) = cond (j == k) ((k, v) ∷ m) ((j, w) ∷ insert k v m)

  unfoldable pub remove : String → Dict V → Dict V
  remove k [] = []
  remove k ((j, w) ∷ m) = cond (j == k) (remove k m) ((j, w) ∷ remove k m)

  -- `[...m.values()]`
  abbrev pub entries : Dict V → List V
  entries = map λ e. e.1

  -- Every value is replaced by a function of it.
  unfoldable pub map_values : (V → V) → Dict V → Dict V
  map_values f [] = []
  map_values f ((j, w) ∷ m) = (j, f w) ∷ map_values f m

  -- Only the entry of the key that is set changes.
  pub lookup-insert :
      (set asked : String) (value : V) (map_ : Dict V)
      → lookup asked (insert set value map_) ≡ cond (set == asked) (some value) (lookup asked map_)
  unfolding insert lookup
  lookup-insert set asked value ((key, old) ∷ later) = ground (
    arith,
    eq_iff key asked,
    eq_iff key set,
    eq_iff set asked,
    lookup-insert set asked value later,
  )
  lookup-insert set asked value [] = refl

  pub lookup-insert_self :
      (key : String) (value : V) (map_ : Dict V) → lookup key (insert key value map_) ≡ some value
  lookup-insert_self key value map_ = rw (lookup-insert key key value map_, eq_refl key)

  pub lookup-insert_ne :
      (k j : String) (v : V) (m : Dict V) → k ≢ j → lookup j (insert k v m) ≡ lookup j m
  lookup-insert_ne k j v m h = rw (lookup-insert k j v m) (ground (arith, eq_iff k j))

  pub lookup-remove :
      (k j : String) (m : Dict V) → lookup j (remove k m) ≡ cond (k == j) none (lookup j m)
  unfolding lookup remove
  lookup-remove k j [] = ground arith
  lookup-remove k j ((i, w) ∷ m) =
      ground (arith, eq_iff k j, eq_iff i k, eq_iff i j, lookup-remove k j m)

  abbrev map_found : (V → V) → Option V → Option V
  map_found f none = none
  map_found f (some v) = some (f v)

  pub lookup-map_values :
      (f : V → V) (k : String) (m : Dict V) → lookup k (map_values f m) ≡ map_found f (lookup k m)
  unfolding lookup map_values
  lookup-map_values f k [] = refl
  lookup-map_values f k ((j, w) ∷ m) = ground (arith, lookup-map_values f k m)
