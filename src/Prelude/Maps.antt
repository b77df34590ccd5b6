-- ===== src/Prelude/Maps.antt =====
-- A JavaScript Map with text keys, as an association list in insertion order.
use Prim.Native.String.{String}
use mathlib.Core.Path.{◌≡◌, refl}
use mathlib.Core.Option.{Option, none, some}
use mathlib.Core.List.{List, [], ◌∷◌, ◌++◌}
use native.Mathlib.Omega.{arith}
use Prim.Native.Nat.{◌+◌, ◌≤◌, ◌<◌}
use mathlib.Core.Bool.{true, false}
use actions_runners.Prelude.Lists.{All, length}
use actions_runners.Prelude.Tests.{if◌then◌else◌, is_some}
use actions_runners.Prelude.Texts.{str_eq, str_eq_iff, Distinct}

module _ {ℓ} {V : Type ℓ} where
  unfoldable pub lookup : String → List (String × V) → Option V
  lookup k [] = none
  lookup k ((j, v) ∷ m) = if str_eq j k then some v else lookup k m

  -- `map.set(k, v)`: an old key keeps its place.
  unfoldable pub insert : String → V → List (String × V) → List (String × V)
  insert k v [] = (k, v) ∷ []
  insert k v ((j, w) ∷ m) = if str_eq j k then (j, v) ∷ m else (j, w) ∷ insert k v m

  -- `delete map[k]`
  unfoldable pub erase : String → List (String × V) → List (String × V)
  erase k [] = []
  erase k ((j, w) ∷ m) = if str_eq j k then erase k m else (j, w) ∷ erase k m

  pub lookup-insert :
      (k j : String) (v : V) (m : List (String × V))
      → lookup j (insert k v m) ≡ (if str_eq k j then some v else lookup j m)
  unfolding lookup insert
  lookup-insert k j v [] = refl
  lookup-insert k j v ((i, w) ∷ m) =
      ground (arith, str_eq_iff k j, str_eq_iff i k, str_eq_iff i j, lookup-insert k j v m)

  pub lookup-erase :
      (k j : String) (m : List (String × V))
      → lookup j (erase k m) ≡ (if str_eq k j then none else lookup j m)
  unfolding lookup erase
  lookup-erase k j [] = ground arith
  lookup-erase k j ((i, w) ∷ m) =
      ground (arith, str_eq_iff k j, str_eq_iff i k, str_eq_iff i j, lookup-erase k j m)

  pub length-insert :
      (k : String) (v : V) (m : List (String × V)) → length (insert k v m) ≤ length m + 1
  unfolding insert
  length-insert k v [] = omega arith
  length-insert k v ((j, w) ∷ m) = ground (arith, length-insert k v m)

  length-erase-le : (k : String) (m : List (String × V)) → length (erase k m) ≤ length m
  unfolding erase
  length-erase-le k [] = omega arith
  length-erase-le k ((j, w) ∷ m) = ground (arith, length-erase-le k m)

  length-erase-lt :
      (k : String) (m : List (String × V))
      → is_some (lookup k m) ≡ true
      → length (erase k m) < length m
  unfolding erase lookup
  length-erase-lt k [] h = cc
  length-erase-lt k ((j, w) ∷ m) h = ground (arith, length-erase-le k m, length-erase-lt k m)

  erase-keys :
      (k : String) (xs : List String) (m : List (String × V))
      → All (λ x. str_eq x k ≡ false) xs
      → All (λ x. is_some (lookup x m) ≡ true) xs
      → All (λ x. is_some (lookup x (erase k m)) ≡ true) xs
  erase-keys k [] m d h = tt
  erase-keys k (x ∷ xs) m d h = (
    ground (arith, lookup-erase k x m, str_eq_iff k x, str_eq_iff x k),
    erase-keys k xs m d.1 h.1,
  )

  -- Distinct keys that a map has are no more than its entries.
  pub length-keys-le :
      (xs : List String) (m : List (String × V))
      → Distinct xs
      → All (λ x. is_some (lookup x m) ≡ true) xs
      → length xs ≤ length m
  length-keys-le [] m d h = omega arith
  length-keys-le (x ∷ xs) m d h = omega (
    arith,
    length-erase-lt x m h.0,
    length-keys-le xs (erase x m) d.1 (erase-keys x xs m d.0 h.1),
  )

  pub insert-new :
      (k : String) (v : V) (m : List (String × V))
      → lookup k m ≡ none
      → insert k v m ≡ m ++ ((k, v) ∷ [])
  unfolding insert lookup
  insert-new k v [] h = refl
  insert-new k v ((j, w) ∷ m) h = ground (arith, insert-new k v m)

  -- A key that is set is dropped again.
  pub erase-insert :
      (k : String) (v : V) (m : List (String × V)) → erase k (insert k v m) ≡ erase k m
  unfolding erase insert
  erase-insert k v [] = ground (arith, str_eq_iff k k)
  erase-insert k v ((j, w) ∷ m) = ground (arith, erase-insert k v m)

  pub erase-new : (k : String) (m : List (String × V)) → lookup k m ≡ none → erase k m ≡ m
  unfolding erase lookup
  erase-new k [] h = refl
  erase-new k ((j, w) ∷ m) h = ground (arith, erase-new k m)

pub lookup-nil {ℓ} : (V : Type ℓ) (k : String) → lookup {V = V} k [] ≡ none
unfolding lookup
lookup-nil V k = refl
