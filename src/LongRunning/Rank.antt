-- ===== src/LongRunning/Rank.antt =====
-- The percentiles of dashboard/lib/long-running.js.
use mathlib.Core.Path.{subst}
use native.Mathlib.Nat.{mul-le-mul_right, one-le-mul}
use actions_runners.Prelude.{
  All, All-In, Bool, In, In-sort, IsSorted, List, [], ap, arith, false, filter, if◌then◌else◌, inl,
  inr, leb, length, length-sort, ltb, min, or_else, place, refl, some, sort, sort-IsSorted, suc,
  sym, true, zero, ℕ, ◌%◌, ◌&&◌, ◌*◌, ◌+◌, ◌-◌, ◌/◌, ◌<◌, ◌==◌, ◌∙◌, ◌∷◌, ◌≡◌, ◌≢◌, ◌≤◌,
}
use actions_runners.LongRunning.Baseline.{ceil_of, nth, pct, rank}

place-count :
    (p : ℕ → Bool) (x : ℕ) (ys : List ℕ)
    → length (filter p (place ltb x ys)) ≡ length (filter p (x ∷ ys))
unfolding place
place-count p x [] = refl
place-count p x (y ∷ ys) = ground (arith, place-count p x ys)

sort-count : (p : ℕ → Bool) (xs : List ℕ) → length (filter p (sort ltb xs)) ≡ length (filter p xs)
unfolding sort
sort-count p [] = refl
sort-count p (x ∷ xs) = place-count p x (sort ltb xs) ∙ ground (arith, sort-count p xs)

-- How many durations are at most `v`, and how many are below it.
abbrev pub at_most : ℕ → List ℕ → ℕ
at_most v xs = length (filter (λ x. leb x v) xs)

abbrev pub under : ℕ → List ℕ → ℕ
under v xs = length (filter (λ x. ltb x v) xs)

none_under : (v : ℕ) (xs : List ℕ) → All (λ y. ltb y v ≡ false) xs → under v xs ≡ 0
none_under v [] h = refl
none_under v (x ∷ xs) h = rw h.0 (none_under v xs h.1)

nth-counts :
    (xs : List ℕ) (i : ℕ) {v : ℕ}
    → IsSorted ltb xs
    → nth xs i ≡ some v
    → In v xs × (i < at_most v xs) × (under v xs ≤ i)
nth-counts [] i s h = absurd (cc h)
nth-counts (x ∷ xs) zero {v} s h =
    let same : x ≡ v = ap (λ o. or_else o x) h in
    (
      inl (sym same),
      subst (λ w. 0 < at_most w (x ∷ xs)) same (self x xs),
      subst (λ w. under w (x ∷ xs) ≤ 0) same (few x xs s.0),
    )
  where
    self : (x : ℕ) (xs : List ℕ) → 0 < at_most x (x ∷ xs)
    self x xs = ground arith

    few : (x : ℕ) (xs : List ℕ) → All (λ y. ltb y x ≡ false) xs → under x (x ∷ xs) ≤ 0
    few x xs h = let z = none_under x xs h in ground arith
nth-counts (x ∷ xs) (suc i) {v} s h =
    let (j, a, b) = nth-counts xs i {v = v} s.1 h in
    let k : ltb v x ≡ false = All-In (λ y. ltb y x ≡ false) v xs s.0 j in
    (inr j, more x v i xs k a, fewer x v i xs b)
  where
    more :
        (x v i : ℕ) (xs : List ℕ) → ltb v x ≡ false → i < at_most v xs → suc i < at_most v (x ∷ xs)
    more x v i xs k a = ground arith

    fewer : (x v i : ℕ) (xs : List ℕ) → under v xs ≤ i → under v (x ∷ xs) ≤ suc i
    fewer x v i xs b = ground arith

nth-some : (xs : List ℕ) (i : ℕ) → i < length xs → (v : ℕ) × (nth xs i ≡ some v)
nth-some [] i h = absurd (omega (arith, h))
nth-some (x ∷ xs) zero h = (x, refl)
nth-some (x ∷ xs) (suc i) h = nth-some xs i (omega (arith, h))

-- One where the product is above the exact one.
abbrev pub surplus : Bool → ℕ
surplus b = if b then 1 else 0

ceil_low :
    (over : Bool) (m : ℕ)
    → 1 ≤ m
    → 100 * ((if over && (m % 100 == 0) then m / 100 + 1 else (m + 99) / 100) - 1)
      < m + surplus over
ceil_low over m h = ground arith

ceil_high :
    (over : Bool) (m : ℕ)
    → m ≤ 100 * (if over && (m % 100 == 0) then m / 100 + 1 else (m + 99) / 100)
ceil_high over m = ground arith

-- The rank's index is the last one that is below `m` hundredths, or the next.
index_low : (m n c k : ℕ) → 100 * (c - 1) < k → 100 * min (n - 1) (c - 1) < k
index_low m n c k h = omega (arith, h)

index_high : (m n c : ℕ) → 1 ≤ n → m ≤ 100 * n → m ≤ 100 * c → m ≤ 100 * (min (n - 1) (c - 1) + 1)
index_high m n c h k l = omega (arith, h, k, l)

ltb_asym : (a b : ℕ) → ltb a b ≡ true → ltb b a ≡ false
ltb_asym a b h = ground arith

ltb_step : (a b c : ℕ) → ltb b a ≡ false → ltb c b ≡ false → ltb c a ≡ false
ltb_step a b c h k = ground arith

-- Of at least one duration, `pct` gives the percentile by the nearest rank: one of the durations, such
-- that at least `p` percent of them are at most it, and less than `p` percent are below it, or no more
-- than `p` percent where the floating product of `p / 100` and their number is above the exact one.
pub pct_nearest :
    (over : ℕ → ℕ → Bool) (xs : List ℕ) (p : ℕ)
    → length xs ≢ 0
    → 1 ≤ p
    → p ≤ 100
    → (v : ℕ) × (pct over (sort ltb xs) p ≡ some v)
      × In v xs
      × (p * length xs ≤ 100 * at_most v xs)
      × (100 * under v xs < p * length xs + surplus (over p (length xs)))
unfolding pct
pct_nearest over xs p h a b =
    let n = length xs in
    let c = ceil_of over p n in
    let i = rank over p n in
    let o = surplus (over p n) in
    let positive : 1 ≤ n = omega (arith, h) in
    let low : 100 * i < p * n + o =
      index_low (p * n) n c (p * n + o)
        (ceil_low (over p n) (p * n) (one-le-mul {a = p} {b = n} a positive)) in
    let high : p * n ≤ 100 * (i + 1) =
      index_high (p * n) n c positive (mul-le-mul_right n b) (ceil_high (over p n) (p * n)) in
    let size : length (sort ltb xs) ≡ n = length-sort ltb xs in
    let inside : i < length (sort ltb xs) = rw size (omega (arith, positive)) in
    let (v, e) = nth-some (sort ltb xs) i inside in
    let (j, m, d) = nth-counts (sort ltb xs) i {v = v} (sort-IsSorted ltb ltb_asym ltb_step xs) e in
    let most : at_most v (sort ltb xs) ≡ at_most v xs = sort-count (λ x. leb x v) xs in
    let below : under v (sort ltb xs) ≡ under v xs = sort-count (λ x. ltb x v) xs in
    (
      v,
      subst (λ k. nth (sort ltb xs) (rank over p k) ≡ some v) (sym size) (e),
      In-sort ltb v xs j,
      omega (arith, high, m, most),
      omega (arith, low, d, below),
    )
