-- ===== src/Sizing/Count.antt =====
-- The rows of `sizeFleet` (dashboard/lib/sizing.js) count each runner of a repo once.
use mathlib.Core.Path.{ap, ◌∙◌}
use actions_runners.Prelude.{
  All, All-In, All-append, All-of, Bool, Bool-cases, In, List, Option, String, [], any, any-In,
  any-append, any_of_In, append-In_left, arith, false, filter, filter-In, if◌then◌else◌, inl, inr,
  length, map, map-All, none, not, refl, some, str_eq, str_eq_iff, sym, true, ℕ, ◌&&◌, ◌++◌, ◌+◌,
  ◌∷◌, ◌≡◌,
}
use actions_runners.Runner.{Runner}
use actions_runners.Labels.{Key, same_key, same_role}
use actions_runners.Sizing.{
  Input, Row, count, has_runner, of_repo, queued_keys, row_of, rows, runner_key, runner_keys,
  served_keys, total, unique_keys, unserved_keys, unserved_row,
}
use actions_runners.Sizing.Keys.{Keyed, same_key_refl, same_key-repo, same_key-sym}
use actions_runners.Sizing.Grants.{total-filter, total_congr}
use actions_runners.Sizing.Rows.{rows-Keyed, unserved-runner}

role_eq : (o q : Option String) → same_role o q ≡ true → o ≡ q
role_eq none none h = refl
role_eq none (some b) h = cc
role_eq (some a) none h = cc
role_eq (some a) (some b) h = ap some ((str_eq_iff a b).0 h)

and-right : (a b : Bool) → (a && b) ≡ true → b ≡ true
and-right a b h = ground arith

same_key-eq : (j k : Key) → same_key j k ≡ true → j ≡ k
same_key-eq j k h =
    let e = same_key-repo j k h in
    let f = role_eq j.role k.role (and-right (str_eq j.repo k.repo) _ h) in
    ap (λ s. record { repo = s; role = j.role }) e ∙ ap (λ o. record { repo = k.repo; role = o }) f

-- The key is one of the rows'.
abbrev Held : List Row → Key → Type 0
Held rows k = any (λ r. same_key k r.key) rows ≡ true

module _ (repo : String) where
  abbrev mark : Key → Row → ℕ
  mark k r = if of_repo repo r then (if same_key k r.key then 1 else 0) else 0

  no_mark :
      (k : Key) (rows : List Row)
      → All (λ s. same_key k s.key ≡ false) rows
      → total (mark k) rows ≡ 0
  unfolding total
  no_mark k [] h = refl
  no_mark k (row ∷ rows) h = rw h.0 (ground (arith, no_mark k rows h.1))

  one_mark :
      (k : Key) (rows : List Row)
      → Keyed rows
      → Held rows k
      → total (mark k) rows ≡ (if str_eq k.repo repo then 1 else 0)
  unfolding total
  one_mark k [] h i = cc
  one_mark k (row ∷ rows) h i = elim (Bool-cases (same_key k row.key)) [
    | inl e ↦
        let q = same_key-eq k row.key e in
        let rest = no_mark k rows (
          All-of _ rows (λ s m. rw q (
            same_key-sym row.key s.key
            ∙ All-In (λ s. same_key s.key row.key ≡ false) s rows h.0 m))) in
        rw (e, ap Key.repo q) (omega (arith, rest))
    | inr e ↦ let rest = one_mark k rows h.1 (rw e at i) in rw e (ground (arith, rest))
  ]

  mine : List Key → Row → ℕ
  mine ks r = if of_repo repo r then count r.key ks else 0

  total_add :
      (f g : Row → ℕ) (rows : List Row) → total (λ r. f r + g r) rows ≡ total f rows + total g rows
  unfolding total
  total_add f g [] = refl
  total_add f g (row ∷ rows) = omega (arith, total_add f g rows)

  total_zero : (f : Row → ℕ) (rows : List Row) → All (λ r. f r ≡ 0) rows → total f rows ≡ 0
  unfolding total
  total_zero f [] h = refl
  total_zero f (row ∷ rows) h = omega (arith, h.0, total_zero f rows h.1)

  count_total :
      (rows : List Row) (ks : List Key)
      → Keyed rows
      → All (Held rows) ks
      → total (mine ks) rows ≡ length (filter (λ k. str_eq k.repo repo) ks)
  unfolding count mine
  count_total rows [] h i = total_zero (mine []) rows (All-of _ rows (λ r m. ground arith))
  count_total rows (k ∷ ks) h i =
      let split : total (mine (k ∷ ks)) rows ≡ total (λ r. mark k r + mine ks r) rows =
        total_congr (mine (k ∷ ks)) (λ r. mark k r + mine ks r) rows
          (All-of _ rows (λ r m. ground arith)) in
      let one = one_mark k rows h i.0 in
      let rest = count_total rows ks h i.1 in
      ground (arith, split, total_add (mark k) (mine ks) rows, one, rest)

unique_hit : (k : Key) (ks : List Key) → In k ks → any (same_key k) (unique_keys ks) ≡ true
unfolding unique_keys
unique_hit k [] i = elim i [ ]
unique_hit k (j ∷ ks) (inl e) = rw (sym (ap (same_key k) e)) (ground (arith, same_key_refl k))
unique_hit k (j ∷ ks) (inr i) = elim (Bool-cases (same_key k j)) [
  | inl e ↦ rw e refl
  | inr e ↦
      let (h, m, q) = any-In (same_key k) (unique_keys ks) (unique_hit k ks i) in
      let p : not (same_key h j) ≡ true = rw (sym (same_key-eq k h q), e) refl in
      rw e
        (any_of_In (same_key k) h _ (filter-In (λ h. not (same_key h j)) h (unique_keys ks) m p) q)
]

any-map :
    (p : Row → Bool) (g : Key → Row) (ks : List Key) → any p (map g ks) ≡ any (λ k. p (g k)) ks
any-map p g [] = refl
any-map p g (k ∷ ks) = ground (arith, any-map p g ks)

count_none :
    (k : Key) (rs : List Runner)
    → any (λ r. str_eq r.repo k.repo) rs ≡ false
    → count k (map runner_key rs) ≡ 0
unfolding count
count_none k [] h = refl
count_none k (r ∷ rs) h = ground (arith, count_none k rs)

of_runners :
    (repo : String) (rs : List Runner)
    → length (filter (λ k. str_eq k.repo repo) (map runner_key rs))
      ≡ length (filter (λ r. str_eq r.repo repo) rs)
of_runners repo [] = refl
of_runners repo (r ∷ rs) = ground (arith, of_runners repo rs)

module _ (lower : String → String) (x : Input) where
  row-Held : (k : Key) → In k (runner_keys lower x) → Held (rows lower x) k
  unfolding rows row_of
  row-Held k i =
      let hit =
        unique_hit k (runner_keys lower x ++ filter (has_runner lower x) (queued_keys lower x))
          (append-In_left k (runner_keys lower x) _ i) in
      rw any-append (
        rw (any-map (λ r. same_key k r.key) (row_of lower x) (served_keys lower x))
          (ground (arith, hit)))

  have-count : All (λ r. r.have ≡ count r.key (runner_keys lower x)) (rows lower x)
  unfolding rows row_of unserved_row
  have-count =
      All-append _ (map (row_of lower x) (served_keys lower x)) _
        (map-All (row_of lower x) _ (served_keys lower x)
          (All-of _ (served_keys lower x) (λ k i. refl)))
        (map-All (unserved_row lower x) _ (unserved_keys lower x) (
          All-of _ (unserved_keys lower x)
            (λ k i. sym (count_none k x.runners (unserved-runner lower x k i)))))

  pub rows_have :
      (repo : String)
      → total (λ r. r.have) (filter (of_repo repo) (rows lower x))
        ≡ length (filter (λ r. str_eq r.repo repo) x.runners)
  unfolding mine
  rows_have repo =
      total-filter (λ r. r.have) (of_repo repo) (rows lower x)
      ∙ total_congr (λ r. if of_repo repo r then r.have else 0) (mine repo (runner_keys lower x))
          (rows lower x)
          (All-of _ (rows lower x) (λ r i.
            ap (λ n. if of_repo repo r then n else 0)
              (All-In (λ r. r.have ≡ count r.key (runner_keys lower x)) r (rows lower x) have-count
                i)))
      ∙ count_total repo (rows lower x) (runner_keys lower x) (rows-Keyed lower x)
          (All-of _ (runner_keys lower x) row-Held)
      ∙ of_runners repo x.runners
