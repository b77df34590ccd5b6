-- ===== src/Sizing/Cap.antt =====
-- What the repo-wide cap of `sizeFleet` (dashboard/lib/sizing.js) leaves of the deficits of a repo.
use mathlib.Core.Path.{ap, sym, ◌∙◌}
use actions_runners.Prelude.{
  All-of, Bool, Bool-cases, In, In-filter, List, Option-cases, String, [], filter, find?, find?-In,
  if◌then◌else◌, inl, inr, length, map, min, refl, sort, str_eq, str_eq_iff, ℕ, ◌-◌, ◌∷◌, ◌≡◌,
}
use actions_runners.Labels.{same_key}
use actions_runners.Sizing.{
  Input, Row, allot, delta, grant, needier, of_repo, rows, settled, size_fleet, starved, total,
}
use actions_runners.Sizing.Keys.{Keyed, Keyed-filter, Keyed-sort, look, look-grant, same_key-repo}
use actions_runners.Sizing.Grants.{total-allot, total-filter, total-map, total-sort, total_congr}
use actions_runners.Sizing.Rows.{rows-Keyed}
use actions_runners.Sizing.Count.{rows_have}

filter-map :
    (p : Row → Bool) (g : Row → Row) (rs : List Row)
    → ((r : Row) → p (g r) ≡ p r)
    → filter p (map g rs) ≡ map g (filter p rs)
filter-map p g [] e = refl
filter-map p g (r ∷ rs) e = elim (Bool-cases (p r)) [
  | inl h ↦ rw (e r, h) (ap (λ ss. g r ∷ ss) (filter-map p g rs e))
  | inr h ↦ rw (e r, h) (filter-map p g rs e)
]

-- A row that is looked up keeps its repo.
look-repo : (group : List Row) (row : Row) → (look group row).key.repo ≡ row.key.repo
look-repo group row = elim (Option-cases (find? (λ s. same_key s.key row.key) group)) [
  | inl n ↦ rw n refl
  | inr (s, n) ↦
      rw n (same_key-repo s.key row.key (find?-In (λ s. same_key s.key row.key) group n).1)
]

module _ (locale : String → String → Bool) (cap : ℕ) (out : List Row) (keyed : Keyed out) where
  settled-repo : (row : Row) → (settled locale cap out row).key.repo ≡ row.key.repo
  unfolding settled
  settled-repo row = look-repo (allot locale cap (filter (of_repo row.key.repo) out)) row

  -- In the group of one repo, every row becomes the one of its key.
  settled-look :
      (repo : String) (row : Row)
      → In row (filter (of_repo repo) out)
      → settled locale cap out row ≡ look (allot locale cap (filter (of_repo repo) out)) row
  unfolding settled
  settled-look repo row i =
      let e = (str_eq_iff row.key.repo repo).0 (In-filter (of_repo repo) row out i).1 in
      ap (λ s. look (allot locale cap (filter (of_repo s) out)) row) e

  group_total :
      (rows : List Row)
      → Keyed rows
      → total (λ r. delta (look (allot locale cap rows) r)) rows
        ≡ total delta (allot locale cap rows)
  unfolding allot
  group_total rows h =
      let left = cap - total (λ r. r.have) rows in
      let sorted = sort (needier locale) rows in
      let group = grant left sorted in
      sym (total-sort (λ r. delta (look group r)) (needier locale) rows)
      ∙ sym (total-map delta (look group) sorted)
      ∙ ap (total delta) (look-grant left sorted (Keyed-sort (needier locale) rows h))

  total-settled :
      (repo : String)
      → total delta (filter (of_repo repo) (map (settled locale cap out) out))
        ≡ min
            (total delta (filter (of_repo repo) out))
            (cap - total (λ r. r.have) (filter (of_repo repo) out))
  total-settled repo =
      let mine = filter (of_repo repo) out in
      ap (total delta) (
        filter-map (of_repo repo) (settled locale cap out) out
          (λ r. ap (λ s. str_eq s repo) (settled-repo r)))
      ∙ total-map delta (settled locale cap out) mine
      ∙ total_congr (λ r. delta (settled locale cap out r))
          (λ r. delta (look (allot locale cap mine) r)) mine
          (All-of _ mine (λ r i. ap delta (settled-look repo r i)))
      ∙ group_total mine (Keyed-filter (of_repo repo) out keyed)
      ∙ total-allot locale cap mine

total-filter-sort :
    (f : Row → ℕ) (p : Row → Bool) (before : Row → Row → Bool) (rows : List Row)
    → total f (filter p (sort before rows)) ≡ total f (filter p rows)
total-filter-sort f p before rows =
    total-filter f p (sort before rows)
    ∙ total-sort (λ r. if p r then f r else 0) before rows
    ∙ sym (total-filter f p rows)

-- What `sizeFleet` wants to add for a repo, over all its roles, is the sum of what the rows asked
-- for before the last pass, or what the repo's runners leave of the repo-wide cap, whichever is
-- less: no addition takes the repo past the cap, and none that fits is withheld.
pub size_fleet_cap :
    (lower : String → String) (locale : String → String → Bool) (x : Input) (repo : String)
    → total delta (filter (of_repo repo) (size_fleet lower locale x))
      ≡ min
          (total delta (filter (of_repo repo) (rows lower x)))
          (x.cap - length (filter (λ r. str_eq r.repo repo) x.runners))
unfolding size_fleet
size_fleet_cap lower locale x repo =
    total-filter-sort delta (of_repo repo) starved
      (map (settled locale x.cap (rows lower x)) (rows lower x))
    ∙ total-settled locale x.cap (rows lower x) (rows-Keyed lower x) repo
    ∙ ap (λ n. min (total delta (filter (of_repo repo) (rows lower x))) (x.cap - n))
        (rows_have lower x repo)
