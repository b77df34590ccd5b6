-- ===== src/Sizing/Grants.antt =====
-- The last pass of `sizeFleet` (dashboard/lib/sizing.js) on the rows of one repo.
use mathlib.Core.Path.{ap, ◌∙◌}
use actions_runners.Prelude.{
  All, Bool, List, String, [], arith, filter, if◌then◌else◌, map, min, place, refl, sort, ℕ, ◌+◌,
  ◌-◌, ◌∷◌, ◌≡◌,
}
use actions_runners.Sizing.{Row, allot, delta, give_row, grant, needier, rows, total}

module _ (f : Row → ℕ) where
  total-place :
      (before : Row → Row → Bool) (row : Row) (rows : List Row)
      → total f (place before row rows) ≡ f row + total f rows
  unfolding total place
  total-place before row [] = refl
  total-place before row (s ∷ rows) = ground (arith, total-place before row rows)

  pub total-sort :
      (before : Row → Row → Bool) (rows : List Row) → total f (sort before rows) ≡ total f rows
  unfolding total sort
  total-sort before [] = refl
  total-sort before (row ∷ rows) =
      omega (arith, total-place before row (sort before rows), total-sort before rows)

  pub total-map :
      (g : Row → Row) (rows : List Row) → total f (map g rows) ≡ total (λ r. f (g r)) rows
  unfolding total
  total-map g [] = refl
  total-map g (row ∷ rows) = omega (arith, total-map g rows)

  pub total-filter :
      (p : Row → Bool) (rows : List Row)
      → total f (filter p rows) ≡ total (λ r. if p r then f r else 0) rows
  unfolding total
  total-filter p [] = refl
  total-filter p (row ∷ rows) = ground (arith, total-filter p rows)

  pub total_congr :
      (g : Row → ℕ) (rows : List Row) → All (λ r. f r ≡ g r) rows → total f rows ≡ total g rows
  unfolding total
  total_congr g [] h = refl
  total_congr g (row ∷ rows) h = omega (arith, h.0, total_congr g rows h.1)

-- What the loop grants is all that is asked, as far as there are additions left.
pub total-grant :
    (left : ℕ) (rows : List Row) → total delta (grant left rows) ≡ min (total delta rows) left
unfolding grant give_row total
total-grant left [] = omega arith
total-grant left (row ∷ rows) = ground (arith, total-grant (left - min (delta row) left) rows)

-- The same for the rows of a repo, in whatever order.
pub total-allot :
    (locale : String → String → Bool) (cap : ℕ) (rows : List Row)
    → total delta (allot locale cap rows) ≡ min (total delta rows) (cap - total (λ r. r.have) rows)
unfolding allot
total-allot locale cap rows =
    total-grant (cap - total (λ r. r.have) rows) (sort (needier locale) rows)
    ∙ ap (λ n. min n (cap - total (λ r. r.have) rows)) (total-sort delta (needier locale) rows)
