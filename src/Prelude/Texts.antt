-- ===== src/Prelude/Texts.antt =====
-- Texts compared by equality, alone and behind an `Option` that stands for a missing field.
use Prim.Native.String.{String, compare}
use mathlib.Core.Path.{◌≡◌, refl}
use mathlib.Core.Logic.{◌↔◌, ◌≢◌, inl, inr}
use actions_runners.Prelude.Tests.{Bool-cases}
use actions_runners.Prelude.Lists.{
  All, All-filter, All-map, map-All, In, filter, filter-In, In-filter,
}
use mathlib.Core.Bool.{Bool, true, false, not}
use mathlib.Core.Option.{Option, none, some}
use mathlib.Core.List.{List, [], ◌∷◌, map}
use native.Mathlib.Omega.{arith}
use text.Mathlib.Text.{◌==◌, is_lt}
use text.Mathlib.TextEquality.{eq_iff}
use text.Mathlib.TextPositions.{eq_refl}

abbrev pub str_eq : String → String → Bool
str_eq s t = s == t

pub str_eq_iff : (s t : String) → (str_eq s t ≡ true) ↔ (s ≡ t)
str_eq_iff s t = eq_iff s t

pub str_eq_refl : (s : String) → str_eq s s ≡ true
str_eq_refl s = eq_refl s

-- The order of two texts, by code points.
abbrev pub str_lt : String → String → Bool
str_lt s t = is_lt (compare s t)

-- `[...new Set(xs)]`: the first copy of each.
unfoldable pub unique : List String → List String
unique [] = []
unique (x ∷ xs) = x ∷ filter (λ y. not (str_eq y x)) (unique xs)

pub unique-In : (a : String) (xs : List String) → In a xs → In a (unique xs)
unfolding unique
unique-In a [] i = i
unique-In a (x ∷ xs) (inl e) = inl e
unique-In a (x ∷ xs) (inr i) = elim (Bool-cases (str_eq a x)) [
  | inl e ↦ inl ((eq_iff a x).0 e)
  | inr e ↦ inr (filter-In _ a (unique xs) (unique-In a xs i) (rw e))
]

pub In-unique : (a : String) (xs : List String) → In a (unique xs) → In a xs
unfolding unique
In-unique a [] i = i
In-unique a (x ∷ xs) (inl e) = inl e
In-unique a (x ∷ xs) (inr i) = inr (In-unique a xs (In-filter _ a (unique xs) i).0)

-- `o === s`, where the field `o` may be missing.
abbrev pub is_text : Option String → String → Bool
is_text none s = false
is_text (some t) s = str_eq t s

-- The truth value of a field that may be missing: the empty text is false too.
abbrev pub truthy : Option String → Bool
truthy none = false
truthy (some t) = not (str_eq t "")

-- No text stands twice in the list.
abbrev pub Distinct : List String → Type 0
Distinct [] = Unit {0}
Distinct (x ∷ xs) = All (λ y. str_eq y x ≡ false) xs × Distinct xs

pub Distinct-filter {ℓ} :
    {A : Type ℓ} (name : A → String) (p : A → Bool) (xs : List A)
    → Distinct (map name xs)
    → Distinct (map name (filter p xs))
Distinct-filter name p [] d = tt
Distinct-filter name p (x ∷ xs) d = elim (Bool-cases (p x)) [
  | inl e ↦ rw e (
    map-All name _ (filter p xs) (All-filter _ p xs (All-map name _ xs d.0)),
    Distinct-filter name p xs d.1,
  )
  | inr e ↦ rw e (Distinct-filter name p xs d.1)
]

pub str_eq_sym : (s t : String) → str_eq s t ≡ false → str_eq t s ≡ false
str_eq_sym s t h = ground (arith, str_eq_iff s t, str_eq_iff t s)

pub str_eq-false_iff : (s t : String) → (str_eq s t ≡ false) ↔ (s ≢ t)
str_eq-false_iff s t = ((λ h e. cc (h, (str_eq_iff s t).1 e)), λ n. differ (str_eq s t) refl n)
  where
    differ : (b : Bool) → str_eq s t ≡ b → s ≢ t → b ≡ false
    differ true e n = absurd (n ((str_eq_iff s t).0 e))
    differ false e n = refl
