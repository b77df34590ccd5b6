-- ===== src/Autoscale/Up.antt =====
-- What `planScaleUp` (dashboard/lib/autoscale.js) may plan.
use mathlib.Core.Path.{subst, sym, ap, ◌∙◌}
use actions_runners.Prelude.{
  All, All-In, All-of, Bool, Bool-cases, In, In-filter, IsSorted, List, String, [], arith, false,
  inl, inr, length, length-map, length-sort, map, map-All, max, refl, sort-All, sort-In,
  sort-IsSorted, suc, take, true, zero, ℕ, ◌&&◌, ◌<◌, ◌==◌, ◌∷◌, ◌≡◌, ◌≤◌, ◌⊎◌,
}
use actions_runners.Autoscale.ScaleUp.{
  Blocked, Candidate, ScaleMode, SizingRow, UpAction, UpInput, UpPlan, act, blocked, candidates,
  consider, pick, plan_scale_up, planned, ranked, rows_of, stay, worse,
}
use actions_runners.Autoscale.Wait.{In-candidates, Verdict-cases, Waited}

-- The candidate's row is one of the sizing, with a deficit, and without headroom only a row of a
-- repo that nothing serves; and it has waited.
abbrev pub Fit : (String → String) → UpInput → Candidate → Type 0
Fit lower x c =
    In c.row x.sizing
    × ((x.capacity_ok ≡ true) ⊎ (c.row.unserved ≡ true))
    × (0 < c.row.delta)
    × Waited lower x c

-- The rows that are looked at and want a runner, but are blocked.
abbrev pub Stopped : (String → String) → UpInput → SizingRow → Type 0
Stopped lower x row = (row.delta ≡ 0) ⊎ ((b : Blocked) × (consider lower x row ≡ blocked b))

-- The first action of a plan is of a candidate with the largest deficit of all.
abbrev pub Worst : (String → String) → UpInput → List (UpAction × ScaleMode × ℕ) → Type 0
Worst lower x [] = Unit {0}
Worst lower x (a ∷ later) =
    (c : Candidate) × (a.0 ≡ c.action)
    × All (λ d. d.row.delta ≤ c.row.delta) (candidates lower x (rows_of lower x))

abbrev pub UpSound : (String → String) → UpInput → UpPlan → Type 0
UpSound lower x stay = All (Stopped lower x) (rows_of lower x)
UpSound lower x (act actions deficit) =
    (length actions ≤ max 1 x.limits.burst_max_additions)
    × All (λ a. (c : Candidate) × (a.0 ≡ c.action) × (a.1 ≡ c.scale.mode) × Fit lower x c) actions
    × Worst lower x actions

nil_of_length {ℓ} : {A : Type ℓ} (xs : List A) → length xs ≡ 0 → xs ≡ []
nil_of_length [] h = refl
nil_of_length (x ∷ xs) h = cc

length-take-le {ℓ} : {A : Type ℓ} (n : ℕ) (xs : List A) → length (take n xs) ≤ n
length-take-le zero xs = omega arith
length-take-le (suc n) [] = omega arith
length-take-le (suc n) (x ∷ xs) = omega (arith, length-take-le n xs)

All-take {ℓ κ} : {A : Type ℓ} (P : A → Type κ) (n : ℕ) (xs : List A) → All P xs → All P (take n xs)
All-take P zero xs h = tt
All-take P (suc n) [] h = tt
All-take P (suc n) (x ∷ xs) h = (h.0, All-take P n xs h.1)

module _ (lower : String → String) (x : UpInput) where
  worse_asym : (a b : Candidate) → worse lower x a b ≡ true → worse lower x b a ≡ false
  worse_asym a b h = ground arith

  worse_step :
      (a b c : Candidate)
      → worse lower x b a ≡ false
      → worse lower x c b ≡ false
      → worse lower x c a ≡ false
  worse_step a b c h k = ground arith

  worse_le : (a b : Candidate) → worse lower x b a ≡ false → b.row.delta ≤ a.row.delta
  worse_le a b h = ground arith

  candidate-Fit : (c : Candidate) → In c (candidates lower x (rows_of lower x)) → Fit lower x c
  candidate-Fit c i =
      let (j, d, w) = In-candidates lower x c (rows_of lower x) i in
      elim (Bool-cases x.capacity_ok) [
        | inl e ↦ (rw e at j, inl e, d, w)
        | inr e ↦
            let (k, u) = In-filter (λ (r : SizingRow). r.unserved) c.row x.sizing (rw e at j) in
            (k, inr u, d, w)
      ]

  ranked-Fit : All (Fit lower x) (ranked lower x)
  unfolding ranked
  ranked-Fit =
      sort-All (worse lower x) (Fit lower x) (candidates lower x (rows_of lower x))
        (All-of (Fit lower x) _ candidate-Fit)

  candidates_none :
      (rows : List SizingRow) → candidates lower x rows ≡ [] → All (Stopped lower x) rows
  unfolding candidates
  candidates_none [] h = tt
  candidates_none (row ∷ rows) h = elim (Bool-cases (row.delta == 0)) [
    | inl e ↦ (inl (ground arith), candidates_none rows (rw e at h))
    | inr e ↦ elim (Verdict-cases (consider lower x row)) [
      | inl (b, v) ↦ (inr (b, v), candidates_none rows (rw (e, v) at h))
      | inr (d, v) ↦ cc (rw (e, v) at h)
    ]
  ]

  ranked_nil : ranked lower x ≡ [] → candidates lower x (rows_of lower x) ≡ []
  unfolding ranked
  ranked_nil h =
      nil_of_length _
        (sym (length-sort (worse lower x) (candidates lower x (rows_of lower x))) ∙ ap length h)

  ranked_first :
      (c : Candidate) (cs : List Candidate)
      → ranked lower x ≡ c ∷ cs
      → All (λ d. d.row.delta ≤ c.row.delta) (candidates lower x (rows_of lower x))
  unfolding ranked
  ranked_first c cs h =
      let s = subst (IsSorted (worse lower x)) h (
        sort-IsSorted (worse lower x) worse_asym worse_step
          (candidates lower x (rows_of lower x))) in
      All-of (λ d. d.row.delta ≤ c.row.delta) _
        (λ d i.
          elim (subst (In d) h
            (sort-In (worse lower x) d (candidates lower x (rows_of lower x)) i)) [
              | inl e ↦ ground (arith, e)
              | inr j ↦ worse_le c d (All-In (λ y. worse lower x y c ≡ false) d cs s.0 j)
            ])

  planned-Fit :
      (cs : List Candidate)
      → All (Fit lower x) cs
      → All
          (λ a. (c : Candidate) × (a.0 ≡ c.action) × (a.1 ≡ c.scale.mode) × Fit lower x c)
          (map planned cs)
  planned-Fit cs h =
      map-All planned _ cs (All-of _ cs (λ c i. (c, refl, refl, All-In (Fit lower x) c cs h i)))

  take-Worst :
      (n : ℕ) (c : Candidate) (cs : List Candidate)
      → ranked lower x ≡ c ∷ cs
      → Worst lower x (map planned (take n (c ∷ cs)))
  take-Worst zero c cs h = tt
  take-Worst (suc n) c cs h = (c, refl, ranked_first c cs h)

  pick-UpSound :
      (batch : Bool) (cs : List Candidate)
      → ranked lower x ≡ cs
      → UpSound lower x (pick batch x.limits.burst_max_additions cs)
  unfolding pick
  pick-UpSound batch [] h = candidates_none (rows_of lower x) (ranked_nil h)
  pick-UpSound true (c ∷ cs) h =
      let most = x.limits.burst_max_additions in
      let fit : All (Fit lower x) (c ∷ cs) = subst (All (Fit lower x)) h ranked-Fit in
      (
        omega (arith, length-map planned (take most (c ∷ cs)), length-take-le most (c ∷ cs)),
        planned-Fit (take most (c ∷ cs)) (All-take (Fit lower x) most (c ∷ cs) fit),
        take-Worst most c cs h,
      )
  pick-UpSound false (c ∷ cs) h =
      let fit : All (Fit lower x) (c ∷ cs) = subst (All (Fit lower x)) h ranked-Fit in
      (omega arith, ((c, refl, refl, fit.0), tt), (c, refl, ranked_first c cs h))

-- A plan has at most the additions of a burst, or one. Each action is of a row of the sizing with a
-- deficit, and, without headroom, of a row that nothing serves; it is for the row's repo, and
-- registers a new runner or copies one of the repo that is not draining; a run of the repo has been
-- queued since a time from which the row's scale asks a wait that is over, the last addition is over
-- its cooldown, and the diagnoses of the repo, if there are any, have one that asks for a runner with
-- high confidence. The first action is of a candidate whose deficit no other exceeds. A plan to stay
-- means that every row that is looked at is blocked or has no deficit.
pub plan_scale_up-UpSound :
    (lower : String → String) (x : UpInput) → UpSound lower x (plan_scale_up lower x)
unfolding plan_scale_up
plan_scale_up-UpSound lower x =
    pick-UpSound lower x (x.revalidate && x.limits.burst_scale) (ranked lower x) refl
