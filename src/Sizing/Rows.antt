-- ===== src/Sizing/Rows.antt =====
-- The rows of `sizeFleet` (dashboard/lib/sizing.js) before its last pass: each key once.
use mathlib.Core.Path.{ap, sym, ◌∙◌}
use actions_runners.Prelude.{
  All, All-In, All-append, All-filter, All-of, Bool, Bool-cases, In, In-append, In-filter, In-map,
  List, String, [], any, any_of_In, arith, false, filter, inl, inr, map, map-All, not, refl, str_eq,
  str_eq_refl, true, ◌++◌, ◌∷◌, ◌≡◌,
}
use actions_runners.Runner.{Runner}
use actions_runners.Labels.{Key, same_key}
use actions_runners.Sizing.{
  Input, Row, has_runner, queued_keys, row_of, rows, runner_key, runner_keys, served_keys,
  unique_keys, unserved_keys, unserved_row,
}
use actions_runners.Sizing.Keys.{Fresh, Keyed, same_key-repo}

abbrev DistinctKeys : List Key → Type 0
DistinctKeys [] = Unit
DistinctKeys (k ∷ ks) = All (λ j. same_key j k ≡ false) ks × DistinctKeys ks

not-true : (b : Bool) → not b ≡ true → b ≡ false
not-true b h = ground arith

DistinctKeys-filter :
    (p : Key → Bool) (ks : List Key) → DistinctKeys ks → DistinctKeys (filter p ks)
DistinctKeys-filter p [] h = tt
DistinctKeys-filter p (k ∷ ks) h = elim (Bool-cases (p k)) [
  | inl e ↦ rw e (All-filter _ p ks h.0, DistinctKeys-filter p ks h.1)
  | inr e ↦ rw e (DistinctKeys-filter p ks h.1)
]

unique_keys-Distinct : (ks : List Key) → DistinctKeys (unique_keys ks)
unfolding unique_keys
unique_keys-Distinct [] = tt
unique_keys-Distinct (k ∷ ks) =
    let other : Key → Bool = λ j. not (same_key j k) in
    (
      All-of (λ j. same_key j k ≡ false) (filter other (unique_keys ks))
          (λ j i. not-true (same_key j k) (In-filter other j (unique_keys ks) i).1),
      DistinctKeys-filter other (unique_keys ks) (unique_keys-Distinct ks),
    )

In-unique_keys : (j : Key) (ks : List Key) → In j (unique_keys ks) → In j ks
unfolding unique_keys
In-unique_keys j [] i = i
In-unique_keys j (k ∷ ks) (inl e) = inl e
In-unique_keys j (k ∷ ks) (inr i) =
    inr (In-unique_keys j ks (In-filter (λ j. not (same_key j k)) j (unique_keys ks) i).0)

Keyed-map :
    (g : Key → Row) (ks : List Key)
    → ((k : Key) → (g k).key ≡ k)
    → DistinctKeys ks
    → Keyed (map g ks)
Keyed-map g [] e h = tt
Keyed-map g (k ∷ ks) e h = (
  map-All g (λ s. same_key s.key (g k).key ≡ false) ks
      (All-of _ ks (λ j i. rw (e j, e k) (All-In (λ j. same_key j k ≡ false) j ks h.0 i))),
  Keyed-map g ks e h.1,
)

Keyed-append :
    (rs ss : List Row) → Keyed rs → Keyed ss → All (λ r. Fresh r.key ss) rs → Keyed (rs ++ ss)
Keyed-append [] ss h k f = k
Keyed-append (r ∷ rs) ss h k f = (All-append _ rs ss h.0 f.0, Keyed-append rs ss h.1 k f.1)

module _ (lower : String → String) (x : Input) where
  served-runner : (k : Key) → In k (served_keys lower x) → has_runner lower x k ≡ true
  served-runner k i = elim (In-append k (runner_keys lower x) _ (In-unique_keys k _ i)) [
    | inl j ↦
        let (r, m, e) = In-map runner_key k x.runners j in
        any_of_In (λ s. str_eq s.repo k.repo) r x.runners m (rw e (str_eq_refl r.repo))
    | inr j ↦ (In-filter (has_runner lower x) k (queued_keys lower x) j).1
  ]

  pub unserved-runner : (k : Key) → In k (unserved_keys lower x) → has_runner lower x k ≡ false
  unserved-runner k i = elim (Bool-cases x.include_unserved) [
    | inl e ↦
        not-true (has_runner lower x k)
          (In-filter (λ k. not (has_runner lower x k)) k (unique_keys (queued_keys lower x))
            (rw e at i)).1
    | inr e ↦ let j : In k [] = rw e at i in elim j [ ]
  ]

  pub unserved-Distinct : DistinctKeys (unserved_keys lower x)
  unserved-Distinct = elim (Bool-cases x.include_unserved) [
    | inl e ↦ rw e (DistinctKeys-filter _ _ (unique_keys-Distinct (queued_keys lower x)))
    | inr e ↦ rw e tt
  ]

  apart :
      (j k : Key)
      → has_runner lower x j ≡ false
      → has_runner lower x k ≡ true
      → same_key j k ≡ false
  apart j k f t = elim (Bool-cases (same_key j k)) [
    | inl e ↦
        let q = ap (λ s. any (λ (r : Runner). str_eq r.repo s) x.runners) (same_key-repo j k e) in
        cc (sym f ∙ q ∙ t)
    | inr e ↦ e
  ]

  pub rows-Keyed : Keyed (rows lower x)
  unfolding rows row_of unserved_row
  rows-Keyed =
      Keyed-append _ _
        (Keyed-map (row_of lower x) (served_keys lower x) (λ k. refl) (unique_keys-Distinct _))
        (Keyed-map (unserved_row lower x) (unserved_keys lower x) (λ k. refl) unserved-Distinct)
        (map-All (row_of lower x) _ (served_keys lower x) (
          All-of _ (served_keys lower x) (λ k i.
            map-All (unserved_row lower x) _ (unserved_keys lower x) (
              All-of _ (unserved_keys lower x)
                (λ j m. apart j k (unserved-runner j m) (served-runner k i))))))
