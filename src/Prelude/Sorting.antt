-- ===== src/Prelude/Sorting.antt =====
-- `Array.prototype.sort` by a comparator: the stable sort, as an insertion sort. `before x y`
-- says that the comparator is negative at `x`, `y`.
use Prim.Native.Nat.{ℕ, suc, ◌≤◌}
use mathlib.Core.Path.{◌≡◌, refl, ap, subst}
use mathlib.Core.Bool.{Bool, true, false}
use mathlib.Core.List.{List, [], ◌∷◌}
use mathlib.Core.Option.{some}
use mathlib.Core.Logic.{inl, inr}
use native.Mathlib.Omega.{arith}
use actions_runners.Prelude.Tests.{if◌then◌else◌, Bool-cases}
use actions_runners.Prelude.Lists.{length, All, In, All-In, find?}

module _ {ℓ} {A : Type ℓ} (before : A → A → Bool) where
  unfoldable pub place : A → List A → List A
  place x [] = x ∷ []
  place x (y ∷ ys) = if before y x then y ∷ place x ys else x ∷ y ∷ ys

  unfoldable pub sort : List A → List A
  unfolding place
  sort [] = []
  sort (x ∷ xs) = place x (sort xs)

  -- No element comes strictly before an earlier one.
  abbrev pub IsSorted : List A → Type ℓ
  IsSorted [] = Unit
  IsSorted (x ∷ xs) = All (λ y. before y x ≡ false) xs × IsSorted xs

  place-all : (P : A → Type 0) (x : A) (ys : List A) → P x → All P ys → All P (place x ys)
  unfolding place
  place-all P x [] p h = (p, tt)
  place-all P x (y ∷ ys) p h = elim (Bool-cases (before y x)) [
    | inl e ↦ rw e (h.0, place-all P x ys p h.1)
    | inr e ↦ rw e (p, h)
  ]

  -- A property of every element holds of every element of the sorted list.
  pub sort-All : (P : A → Type 0) (xs : List A) → All P xs → All P (sort xs)
  unfolding sort
  sort-All P [] h = tt
  sort-All P (x ∷ xs) h = place-all P x (sort xs) h.0 (sort-All P xs h.1)

  length-place : (x : A) (ys : List A) → length (place x ys) ≡ suc (length ys)
  unfolding place
  length-place x [] = refl
  length-place x (y ∷ ys) = ground (arith, length-place x ys)

  pub length-sort : (xs : List A) → length (sort xs) ≡ length xs
  unfolding sort
  length-sort [] = refl
  length-sort (x ∷ xs) = omega (arith, length-place x (sort xs), length-sort xs)

  In-place : (a x : A) (ys : List A) → In a (place x ys) → In a (x ∷ ys)
  unfolding place
  In-place a x [] i = i
  In-place a x (y ∷ ys) i = ground (arith, In-place a x ys)

  place-In : (a x : A) (ys : List A) → In a (x ∷ ys) → In a (place x ys)
  unfolding place
  place-In a x [] i = i
  place-In a x (y ∷ ys) i = ground (arith, place-In a x ys)

  pub In-sort : (a : A) (xs : List A) → In a (sort xs) → In a xs
  unfolding sort
  In-sort a [] i = i
  In-sort a (x ∷ xs) i = ground (arith, In-place a x (sort xs) i, In-sort a xs)

  pub sort-In : (a : A) (xs : List A) → In a xs → In a (sort xs)
  unfolding sort
  sort-In a [] i = i
  sort-In a (x ∷ xs) (inl e) = place-In a x (sort xs) (inl e)
  sort-In a (x ∷ xs) (inr i) = place-In a x (sort xs) (inr (sort-In a xs i))

  -- A comparator that is negative one way only, and whose ties are transitive with it.
  module _ (asym : (x y : A) → before x y ≡ true → before y x ≡ false)
      (step : (x y z : A) → before y x ≡ false → before z y ≡ false → before z x ≡ false) where
    above :
        (x y : A) (ys : List A)
        → before y x ≡ false
        → All (λ z. before z y ≡ false) ys
        → All (λ z. before z x ≡ false) ys
    above x y [] e h = tt
    above x y (z ∷ ys) e h = (step x y z e h.0, above x y ys e h.1)

    place-IsSorted : (x : A) (ys : List A) → IsSorted ys → IsSorted (place x ys)
    unfolding place
    place-IsSorted x [] h = (tt, tt)
    place-IsSorted x (y ∷ ys) h = elim (Bool-cases (before y x)) [
      | inl e ↦
          rw e (place-all (λ z. before z y ≡ false) x ys (asym y x e) h.0, place-IsSorted x ys h.1)
      | inr e ↦ rw e ((e, above x y ys e h.0), h)
    ]

    pub sort-IsSorted : (xs : List A) → IsSorted (sort xs)
    unfolding sort
    sort-IsSorted [] = tt
    sort-IsSorted (x ∷ xs) = place-IsSorted x (sort xs) (sort-IsSorted xs)

  -- No element has a higher score than an earlier one.
  abbrev pub IsFalling : (A → ℕ) → List A → Type 0
  IsFalling score [] = Unit
  IsFalling score (x ∷ xs) = All (λ y. score y ≤ score x) xs × IsFalling score xs

  -- A comparator that never puts a lower score before a higher one.
  module _ (score : A → ℕ) (up : (x y : A) → before y x ≡ true → score x ≤ score y)
      (down : (x y : A) → before y x ≡ false → score y ≤ score x) where
    below : (m n : ℕ) (ys : List A) → m ≤ n → All (λ z. score z ≤ m) ys → All (λ z. score z ≤ n) ys
    below m n [] e h = tt
    below m n (z ∷ ys) e h = (omega (arith, e, h.0), below m n ys e h.1)

    place-IsFalling : (x : A) (ys : List A) → IsFalling score ys → IsFalling score (place x ys)
    unfolding place
    place-IsFalling x [] h = (tt, tt)
    place-IsFalling x (y ∷ ys) h = elim (Bool-cases (before y x)) [
      | inl e ↦
          rw e (place-all (λ z. score z ≤ score y) x ys (up x y e) h.0, place-IsFalling x ys h.1)
      | inr e ↦ rw e ((down x y e, below (score y) (score x) ys (down x y e) h.0), h)
    ]

    pub sort-IsFalling : (xs : List A) → IsFalling score (sort xs)
    unfolding sort
    sort-IsFalling [] = tt
    sort-IsFalling (x ∷ xs) = place-IsFalling x (sort xs) (sort-IsFalling xs)

  -- The first hit in a sorted list: no other hit comes strictly before it.
  pub find?-least :
      (p : A → Bool) (xs : List A) {a : A} (b : A)
      → ((x : A) → before x x ≡ false)
      → IsSorted xs
      → find? p xs ≡ some a
      → In b xs
      → p b ≡ true
      → before b a ≡ false
  find?-least p [] b irr s h i q = cc
  find?-least p (x ∷ xs) {a} b irr s h i q = elim (Bool-cases (p x)) [
    | inl e ↦ let same : x ≡ a = ground arith in subst (λ y. before b y ≡ false) same (least i)
    | inr e ↦ find?-least p xs b irr s.1 (ground arith) (later i e) q
  ]
    where
      least : In b (x ∷ xs) → before b x ≡ false
      least (inl e) = rw e (irr x)
      least (inr j) = All-In (λ y. before y x ≡ false) b xs s.0 j

      later : In b (x ∷ xs) → p x ≡ false → In b xs
      later (inl e) f = cc (ap p e)
      later (inr j) f = j
