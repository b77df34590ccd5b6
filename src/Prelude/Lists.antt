-- ===== src/Prelude/Lists.antt =====
-- Lists measured by native numbers, with Boolean `filter`, `any` and `all`.
use Prim.Native.Nat.{ℕ, zero, suc, ◌+◌, ◌≤◌}
use mathlib.Core.Path.{◌≡◌, refl, sym, ap, subst, ◌∙◌}
use mathlib.Core.Logic.{◌⊎◌, inl, inr}
use mathlib.Core.Bool.{Bool, true, false, ◌&&◌, ◌||◌}
use mathlib.Core.List.{List, [], ◌∷◌, ◌++◌, map}
use mathlib.Core.Option.{Option, none, some}
use native.Mathlib.Omega.{arith}
use actions_runners.Prelude.Tests.{if◌then◌else◌, Bool-cases}

pub data Never {ℓ} : Type ℓ where

module _ {ℓ} {A : Type ℓ} where
  abbrev pub length : List A → ℕ
  length [] = 0
  length (x ∷ xs) = suc (length xs)

  abbrev pub take : ℕ → List A → List A
  take zero xs = []
  take (suc n) [] = []
  take (suc n) (x ∷ xs) = x ∷ take n xs

  -- The library's `filter` wants a decision; this one takes the test of the source.
  abbrev pub filter : (A → Bool) → List A → List A
  filter p [] = []
  filter p (x ∷ xs) = if p x then x ∷ filter p xs else filter p xs

  abbrev pub any : (A → Bool) → List A → Bool
  any p [] = false
  any p (x ∷ xs) = p x || any p xs

  abbrev pub all : (A → Bool) → List A → Bool
  all p [] = true
  all p (x ∷ xs) = p x && all p xs

  abbrev pub find? : (A → Bool) → List A → Option A
  find? p [] = none
  find? p (x ∷ xs) = if p x then some x else find? p xs

  -- `P` at every element, in a form that computes to a tuple.
  abbrev pub All {κ} : (A → Type κ) → List A → Type κ
  All P [] = Unit
  All P (x ∷ xs) = P x × All P xs

  -- `a` is an element, in a form that computes to a sum.
  abbrev pub In : A → List A → Type ℓ
  In a [] = Never
  In a (x ∷ xs) = (a ≡ x) ⊎ In a xs

  pub length-append : (xs ys : List A) → length (xs ++ ys) ≡ length xs + length ys
  length-append [] ys = omega arith
  length-append (x ∷ xs) ys = omega (arith, length-append xs ys)

  pub length-filter-le : (p : A → Bool) (xs : List A) → length (filter p xs) ≤ length xs
  length-filter-le p [] = omega arith
  length-filter-le p (x ∷ xs) = ground (arith, length-filter-le p xs)

  pub In-append : (a : A) (xs ys : List A) → In a (xs ++ ys) → In a xs ⊎ In a ys
  In-append a [] ys i = inr i
  In-append a (x ∷ xs) ys (inl e) = inl (inl e)
  In-append a (x ∷ xs) ys (inr i) = ground (arith, In-append a xs ys i)

  pub append-In_left : (a : A) (xs ys : List A) → In a xs → In a (xs ++ ys)
  append-In_left a (x ∷ xs) ys (inl e) = inl e
  append-In_left a (x ∷ xs) ys (inr i) = inr (append-In_left a xs ys i)
  append-In_left a [] ys i = elim i [ ]

  pub append-In_right : (a : A) (xs ys : List A) → In a ys → In a (xs ++ ys)
  append-In_right a [] ys i = i
  append-In_right a (x ∷ xs) ys i = inr (append-In_right a xs ys i)

  pub All-In {κ} : (P : A → Type κ) (a : A) (xs : List A) → All P xs → In a xs → P a
  All-In P a [] h i = elim i [ ]
  All-In P a (x ∷ xs) h (inl e) = subst P (sym e) h.0
  All-In P a (x ∷ xs) h (inr i) = All-In P a xs h.1 i

  pub In-filter : (p : A → Bool) (a : A) (xs : List A) → In a (filter p xs) → In a xs × (p a ≡ true)
  In-filter p a [] i = elim i [ ]
  In-filter p a (x ∷ xs) i = elim (Bool-cases (p x)) [
    | inl e ↦ kept e (rw e at i) (In-filter p a xs)
    | inr e ↦ let (j, q) = In-filter p a xs (rw e at i) in (inr j, q)
  ]
    where
      kept :
          p x ≡ true
          → In a (x ∷ filter p xs)
          → (In a (filter p xs) → In a xs × (p a ≡ true))
          → In a (x ∷ xs) × (p a ≡ true)
      kept e (inl q) ih = (inl q, ap p q ∙ e)
      kept e (inr j) ih = let (k, q) = ih j in (inr k, q)

  pub filter-In : (p : A → Bool) (a : A) (xs : List A) → In a xs → p a ≡ true → In a (filter p xs)
  filter-In p a [] i q = elim i [ ]
  filter-In p a (x ∷ xs) (inl e) q = rw (sym (ap p e) ∙ q) (inl e)
  filter-In p a (x ∷ xs) (inr i) q = elim (Bool-cases (p x)) [
    | inl e ↦ rw e (inr (filter-In p a xs i q))
    | inr e ↦ rw e (filter-In p a xs i q)
  ]

  -- `any` finds an element, and `find?` the first one.
  pub any-In : (p : A → Bool) (xs : List A) → any p xs ≡ true → (a : A) × In a xs × (p a ≡ true)
  any-In p [] h = cc
  any-In p (x ∷ xs) h = elim (Bool-cases (p x)) [
    | inl e ↦ (x, inl refl, e)
    | inr e ↦ let (a, i, q) = any-In p xs (rw e at h) in (a, inr i, q)
  ]

  pub any_of_In : (p : A → Bool) (a : A) (xs : List A) → In a xs → p a ≡ true → any p xs ≡ true
  any_of_In p a [] i q = elim i [ ]
  any_of_In p a (x ∷ xs) (inl e) q = ground (arith, ap p e)
  any_of_In p a (x ∷ xs) (inr i) q = ground (arith, any_of_In p a xs i q)

  pub find?-In : (p : A → Bool) (xs : List A) {a : A} → find? p xs ≡ some a → In a xs × (p a ≡ true)
  find?-In p [] h = cc
  find?-In p (x ∷ xs) {a} h = ground (arith, find?-In p xs {a = a})

  pub find?-none : (p : A → Bool) (xs : List A) → find? p xs ≡ none → All (λ x. p x ≡ false) xs
  find?-none p [] h = tt
  find?-none p (x ∷ xs) h = elim (Bool-cases (p x)) [
    | inl e ↦ absurd (cc (rw e at h))
    | inr e ↦ (e, find?-none p xs (rw e at h))
  ]

  pub find?-append :
      (p : A → Bool) (xs ys : List A) → find? p xs ≡ none → find? p (xs ++ ys) ≡ find? p ys
  find?-append p [] ys h = refl
  find?-append p (x ∷ xs) ys h = ground (arith, find?-append p xs ys)

  pub find?-filter :
      (p q : A → Bool) (xs : List A) → find? p xs ≡ none → find? p (filter q xs) ≡ none
  find?-filter p q [] h = refl
  find?-filter p q (x ∷ xs) h = ground (arith, find?-filter p q xs)

  pub filter-append :
      (p : A → Bool) (xs ys : List A) → filter p (xs ++ ys) ≡ filter p xs ++ filter p ys
  filter-append p [] ys = refl
  filter-append p (x ∷ xs) ys = ground (arith, filter-append p xs ys)

  pub All-append {κ} : (P : A → Type κ) (xs ys : List A) → All P xs → All P ys → All P (xs ++ ys)
  All-append P [] ys h k = k
  All-append P (x ∷ xs) ys h k = (h.0, All-append P xs ys h.1 k)

  pub append-All_right {κ} : (P : A → Type κ) (xs ys : List A) → All P (xs ++ ys) → All P ys
  append-All_right P [] ys h = h
  append-All_right P (x ∷ xs) ys h = append-All_right P xs ys h.1

  pub All-filter {κ} :
      (P : A → Type κ) (p : A → Bool) (xs : List A) → All P xs → All P (filter p xs)
  All-filter P p [] h = tt
  All-filter P p (x ∷ xs) h = elim (Bool-cases (p x)) [
    | inl e ↦ rw e (h.0, All-filter P p xs h.1)
    | inr e ↦ rw e (All-filter P p xs h.1)
  ]

module _ {ℓ κ} {A : Type ℓ} {B : Type κ} (f : A → B) where
  pub In-map : (b : B) (xs : List A) → In b (map f xs) → (a : A) × In a xs × (b ≡ f a)
  In-map b [] i = elim i [ ]
  In-map b (x ∷ xs) (inl e) = (x, inl refl, e)
  In-map b (x ∷ xs) (inr i) = let (a, j, e) = In-map b xs i in (a, inr j, e)

  pub map-In : (a : A) (xs : List A) → In a xs → In (f a) (map f xs)
  map-In a [] i = elim i [ ]
  map-In a (x ∷ xs) (inl e) = inl (ap f e)
  map-In a (x ∷ xs) (inr i) = inr (map-In a xs i)

  pub All-map {ι} : (P : B → Type ι) (xs : List A) → All P (map f xs) → All (λ a. P (f a)) xs
  All-map P [] h = tt
  All-map P (x ∷ xs) h = (h.0, All-map P xs h.1)

  pub map-All {ι} : (P : B → Type ι) (xs : List A) → All (λ a. P (f a)) xs → All P (map f xs)
  map-All P [] h = tt
  map-All P (x ∷ xs) h = (h.0, map-All P xs h.1)

  pub length-map : (xs : List A) → length (map f xs) ≡ length xs
  length-map [] = refl
  length-map (x ∷ xs) = ap suc (length-map xs)

module _ {ℓ} {A : Type ℓ} where
  -- A property of every element, from one proof for each.
  pub All-of {κ} : (P : A → Type κ) (xs : List A) → ((a : A) → In a xs → P a) → All P xs
  All-of P [] k = tt
  All-of P (x ∷ xs) k = (k x (inl refl), All-of P xs (λ a i. k a (inr i)))

  pub any_mono :
      (f g : A → Bool) (xs : List A)
      → ((a : A) → f a ≡ false → g a ≡ false)
      → any f xs ≡ false
      → any g xs ≡ false
  any_mono f g [] k h = refl
  any_mono f g (x ∷ xs) k h = ground (arith, k x, any_mono f g xs k)

  pub any-none : (f : A → Bool) (xs : List A) → All (λ x. f x ≡ false) xs → any f xs ≡ false
  any-none f [] h = refl
  any-none f (x ∷ xs) h = ground (arith, any-none f xs h.1)

  pub any-append : (f : A → Bool) (xs ys : List A) → any f (xs ++ ys) ≡ (any f xs || any f ys)
  any-append f [] ys = refl
  any-append f (x ∷ xs) ys = ground (arith, any-append f xs ys)

  abbrev pub is_nil : List A → Bool
  is_nil [] = true
  is_nil (x ∷ xs) = false

  abbrev pub to_list : Option A → List A
  to_list none = []
  to_list (some a) = a ∷ []
