-- ===== src/Prelude/Maps.antt =====
-- Go's maps with string keys, as association lists: one entry for each key, in some order of
-- iteration. A write to a key that is present replaces its value, another is added.

use Prim.Native.String.{String}
use mathlib.Core.Path.{◌≡◌, refl}
use mathlib.Core.List.{List, [], ◌∷◌}
use mathlib.Core.Option.{Option, none, some}
use native.Mathlib.Omega.{arith}
use text.Mathlib.Text.{◌==◌}
use text.Mathlib.TextEquality.{eq_iff}
use trading_challenge.Prelude.Tests.{if◌then◌else◌}

abbrev pub Dict {ℓ} : Type ℓ → Type ℓ
Dict V = List (String × V)

module _ {ℓ} {V : Type ℓ} where
  -- `m[key]`; `none` is the `ok` that is false.
  unfoldable pub lookup : String → Dict V → Option V
  lookup key [] = none
  lookup key ((at, value) ∷ rest) = if at == key then some value else lookup key rest

  -- `m[key] = value`
  unfoldable pub insert : String → V → Dict V → Dict V
  insert key value [] = (key, value) ∷ []
  insert key value ((at, old) ∷ rest) =
      let later = insert key value rest in
      if at == key then (at, value) ∷ rest else (at, old) ∷ later

  -- `delete(m, key)`
  unfoldable pub erase : String → Dict V → Dict V
  erase key [] = []
  erase key ((at, value) ∷ rest) =
      let later = erase key rest in if at == key then later else (at, value) ∷ later

  -- What a write leaves at any key.
  pub lookup-insert :
      (key other : String) (value : V) (m : Dict V)
      → lookup other (insert key value m) ≡ (if key == other then some value else lookup other m)
  unfolding insert lookup
  lookup-insert key other value [] = refl
  lookup-insert key other value ((at, old) ∷ rest) =
      ground (
        arith,
        lookup-insert key other value rest,
        eq_iff at key,
        eq_iff at other,
        eq_iff key other,
      )

  -- What a deletion leaves at any key.
  pub lookup-erase :
      (key other : String) (m : Dict V)
      → lookup other (erase key m) ≡ (if key == other then none else lookup other m)
  unfolding erase lookup
  lookup-erase key other [] = ground (arith, eq_iff key other)
  lookup-erase key other ((at, old) ∷ rest) =
      ground (arith, lookup-erase key other rest, eq_iff at key, eq_iff at other, eq_iff key other)

module _ {ℓ} {V : Type ℓ} where
  -- One entry for each key.
  abbrev pub IsMap : Dict V → Type ℓ
  IsMap [] = Unit
  IsMap ((k, v) ∷ m) = (lookup k m ≡ none) × IsMap m

  pub insert-IsMap : (k : String) (v : V) (m : Dict V) → IsMap m → IsMap (insert k v m)
  unfolding insert
  insert-IsMap k v [] h = (unfold lookup in refl, tt)
  insert-IsMap k v ((j, w) ∷ m) h =
      ground (arith, eq_iff j k, eq_iff k j, lookup-insert k j v m, insert-IsMap k v m h.1)
