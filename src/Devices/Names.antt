-- ===== src/Devices/Names.antt =====
-- The names of paired devices (dashboard/lib/devices.js).
use Prim.Native.String.{◌++◌ as text_append, count}
use text.Mathlib.TextLemmas.{append_cancel_left, append_cancel_right, length-append as count-append}
use actions_runners.Prelude.{
  All, Bool, Bool-cases, Distinct, List, Option, Option-cases, String, [], any, ap, arith, false,
  inl, inr, is_some, length, length-keys-le, length-map, lookup, map, none, refl, some, str_eq,
  str_eq-false_iff, str_eq_iff, suc, sym, true, zero, ℕ, ◌+◌, ◌<◌, ◌∷◌, ◌≡◌, ◌≢◌,
}
use actions_runners.Devices.Store.{Store, base_name, device_name, name_loop, names_of, numbered}

numbered-base : (show : ℕ → String) (base : String) (n : ℕ) → numbered show base n ≢ base
numbered-base show base n h =
    let tail = text_append " (" (text_append (show n) ")") in
    let a = count-append base tail in
    let b = count-append " (" (text_append (show n) ")") in
    let c : count (text_append base tail) ≡ count base = ap count h in omega (arith, a, b, c)

numbered_inj :
    (show : ℕ → String)
    → ((m n : ℕ) → show m ≡ show n → m ≡ n)
    → (base : String) (m n : ℕ) → numbered show base m ≡ numbered show base n
    → m ≡ n
numbered_inj show inj base m n h = inj m n (
    append_cancel_right (show m) (show n) ")" (
      append_cancel_left " (" (text_append (show m) ")") (text_append (show n) ")")
        (append_cancel_left base _ _ h)))

module _ (show : ℕ → String) (inj : (m n : ℕ) → show m ≡ show n → m ≡ n)
    (clean digest : String → String) (taken : List String) (base : String) where
  -- The names that the loop tries after the first: from `n` on.
  tried : ℕ → ℕ → List String
  tried zero n = []
  tried (suc k) n = numbered show base n ∷ tried k (n + 1)

  length-tried : (k n : ℕ) → length (tried k n) ≡ k
  unfolding tried
  length-tried zero n = refl
  length-tried (suc k) n = omega (arith, length-tried k (n + 1))

  -- The loop goes on only past names that are taken.
  loop_taken :
      (fuel : ℕ) (name : String) (n : ℕ)
      → name_loop show clean digest (suc fuel) taken base name n ≡ none
      → All (λ x. any (str_eq x) taken ≡ true) (name ∷ tried fuel n)
  unfolding name_loop tried
  loop_taken zero name n h = ground (arith)
  loop_taken (suc fuel) name n h = elim (Bool-cases (any (str_eq name) taken)) [
    | inl e ↦ (e, loop_taken fuel (numbered show base n) (n + 1) (rw e at h))
    | inr e ↦ absurd (cc (rw e at h))
  ]

  -- Every name that the loop tries from `n` on differs from the ones before.
  tried-fresh : (k m n : ℕ) → m < n → All (λ x. str_eq x (numbered show base m) ≡ false) (tried k n)
  unfolding tried
  tried-fresh zero m n l = tt
  tried-fresh (suc k) m n l = (
    (str_eq-false_iff (numbered show base n) (numbered show base m)).1
        (λ e. let i = numbered_inj show inj base n m e in omega (arith, l, i)),
    tried-fresh k m (n + 1) (omega (arith, l)),
  )

  base-fresh : (k n : ℕ) → All (λ x. str_eq x base ≡ false) (tried k n)
  unfolding tried
  base-fresh zero n = tt
  base-fresh (suc k) n = (
    (str_eq-false_iff (numbered show base n) base).1 (numbered-base show base n),
    base-fresh k (n + 1),
  )

  tried-Distinct : (k n : ℕ) → Distinct (tried k n)
  unfolding tried
  tried-Distinct zero n = tt
  tried-Distinct (suc k) n = (tried-fresh k n (n + 1) (omega arith), tried-Distinct k (n + 1))

  taken-key :
      (x : String) (ts : List String)
      → any (str_eq x) ts ≡ true
      → is_some (lookup x (map (λ t. (t, true)) ts)) ≡ true
  unfolding lookup
  taken-key x [] h = cc
  taken-key x (t ∷ ts) h = ground (arith, str_eq_iff x t, str_eq_iff t x, taken-key x ts)

  taken-keys :
      (xs ts : List String)
      → All (λ x. any (str_eq x) ts ≡ true) xs
      → All (λ x. is_some (lookup x (map (λ t. (t, true)) ts)) ≡ true) xs
  taken-keys [] ts h = tt
  taken-keys (x ∷ xs) ts h = (taken-key x ts h.0, taken-keys xs ts h.1)

  -- With a round more than the names that are taken, the loop ends.
  loop_ends : name_loop show clean digest (length taken + 1) taken base base 2 ≢ none
  loop_ends h =
      let e : length taken + 1 ≡ suc (length taken) = omega arith in
      let all = loop_taken (length taken) base 2 (rw e at h) in
      let le =
        length-keys-le (base ∷ tried (length taken) 2) (map (λ t. (t, true)) taken)
          (base-fresh (length taken) 2, tried-Distinct (length taken) 2)
          (taken-keys (base ∷ tried (length taken) 2) taken all) in
      omega (
        arith,
        le,
        length-tried (length taken) 2,
        length-map {B = String × Bool} (λ t. (t, true)) taken,
      )

  -- What it ends with is not taken.
  loop_free :
      (fuel : ℕ) (name : String) (n : ℕ) (x : String)
      → name_loop show clean digest fuel taken base name n ≡ some x
      → any (str_eq x) taken ≡ false
  unfolding name_loop
  loop_free zero name n x h = cc
  loop_free (suc fuel) name n x h = elim (Bool-cases (any (str_eq name) taken)) [
    | inl e ↦ loop_free fuel (numbered show base n) (n + 1) x (rw e at h)
    | inr e ↦ let k : name ≡ x = cc (rw e at h) in rw (sym k) e
  ]

-- When `show` gives different texts to different numbers, the search for the name of a new device ends
-- within a round more than there are entries, and no entry of the store has the name it finds.
pub device_name_free :
    (show : ℕ → String)
    → ((m n : ℕ) → show m ≡ show n → m ≡ n)
    → (clean digest : String → String) (s : Store) (n : Option String)
    → (name : String) × (device_name show clean digest s n ≡ some name)
      × (any (str_eq name) (names_of show clean digest s) ≡ false)
unfolding device_name
device_name_free show inj clean digest s n =
    let names = names_of show clean digest s in
    let base = base_name show clean digest n in
    let loop = name_loop show clean digest (length names + 1) names base base 2 in
    elim (Option-cases loop) [
      | inl e ↦ absurd (loop_ends show inj clean digest names base e)
      | inr (x, e) ↦ (
        x,
        rw (sym (length-map (λ e. e.1.name) s)) e,
        loop_free show inj clean digest names base (length names + 1) base 2 x e,
      )
    ]
