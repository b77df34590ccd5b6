-- ===== src/LongRunning/Flagged.antt =====
-- Which active runs dashboard/lib/long-running.js flags.
-- A baseline of enough durations, whose expected one is their percentile.
use actions_runners.Prelude.{
  Bool, Bool-cases, List, Option, Option-cases, [], ap, arith, false, inl, inr, is_some, length,
  ltb, ltb→lt, max, none, or_else, refl, some, sort, str_eq, sym, true, ℕ, ◌*◌, ◌+◌, ◌-◌, ◌/◌, ◌<◌,
  ◌==◌, ◌∙◌, ◌∷◌, ◌≡◌, ◌≤◌, ◌⊎◌,
}
use actions_runners.LongRunning.Baseline.{
  Baseline, History, Options, Scope, baseline, build_baselines, entry, fleet_durations, fleet_entry,
  fleet_of, of_fleet, of_repo, of_workflow, pct, repo_durations, resolve_baseline,
  workflow_durations,
}
use actions_runners.LongRunning.Annotate.{
  ActiveRun, annotate, elapsed, expected_of, judge, threshold,
}

abbrev pub IsFrom : (ℕ → ℕ → Bool) → Options → List ℕ → ℕ → Baseline → Type 0
IsFrom over o durs e b =
    (b.n ≡ length durs)
    × (o.min_samples ≤ length durs)
    × (pct over (sort ltb durs) o.percentile ≡ some e)
    × (b.expected_ms ≡ some e)

-- The durations of the workflow, where there are enough of them, or else of the repository, or else of
-- the fleet.
abbrev pub Compared : (ℕ → ℕ → Bool) → Options → History → ActiveRun → ℕ → Baseline → Type 0
Compared over o h run e b =
    let of_run = workflow_durations h run.repo run.workflow_name in
    IsFrom over o of_run e b
    ⊎ (((entry over o of_workflow of_run ≡ none) × IsFrom over o (repo_durations h run.repo) e b)
        ⊎ ((entry over o of_workflow of_run ≡ none)
            × (entry over o of_repo (repo_durations h run.repo) ≡ none)
            × IsFrom over o (fleet_durations h) e b))

baseline-IsFrom :
    (over : ℕ → ℕ → Bool) (o : Options) (scope : Scope) (durs : List ℕ) {e : ℕ} {b : Baseline}
    → baseline over o scope durs ≡ some b
    → b.expected_ms ≡ some e
    → IsFrom over o durs e b
unfolding baseline
baseline-IsFrom over o scope durs {e} {b} h k =
    elim (Bool-cases (ltb (length durs) o.min_samples)) [
      | inl f ↦ absurd (cc (rw f at h))
      | inr f ↦
          let made : Baseline = record {
            expected_ms = pct over (sort ltb durs) o.percentile;
            n = length durs;
            scope = scope;
          } in
          let same : made ≡ b = ap (λ s. or_else s made) (rw f at h) in
          (
            ap (λ s. s.n) (sym same),
            enough (length durs) o.min_samples f,
            ap (λ s. s.expected_ms) same ∙ k,
            k,
          )
    ]
  where
    enough : (m n : ℕ) → ltb m n ≡ false → n ≤ m
    enough m n h = ground arith

entry-IsFrom :
    (over : ℕ → ℕ → Bool) (o : Options) (scope : Scope) (durs : List ℕ) {e : ℕ} {b : Baseline}
    → entry over o scope durs ≡ some b
    → b.expected_ms ≡ some e
    → IsFrom over o durs e b
unfolding entry
entry-IsFrom over o scope [] h k = absurd (cc h)
entry-IsFrom over o scope (d ∷ ds) {e} {b} h k =
    baseline-IsFrom over o scope (d ∷ ds) {e = e} {b = b} h k

fleet-some :
    (n : ℕ) (r : Option Baseline) {b : Baseline} → fleet_entry (fleet_of n r) ≡ some b → r ≡ some b
fleet-some n none h = absurd (cc h)
fleet-some n (some c) h = elim (Bool-cases (is_some c.expected_ms)) [
  | inl e ↦ rw e at h
  | inr e ↦ absurd (cc (rw e at h))
]

expected-some :
    (r : Option Baseline) {e : ℕ} {b : Baseline}
    → expected_of r ≡ some (e, b)
    → (r ≡ some b) × (b.expected_ms ≡ some e)
expected-some none h = absurd (cc h)
expected-some (some c) {e} {b} h = elim (Option-cases c.expected_ms) [
  | inl n ↦ absurd (cc (rw n at h))
  | inr (d, n) ↦ elim (Bool-cases (d == 0)) [
    | inl z ↦ absurd (cc (rw (n, z) at h))
    | inr z ↦
        let pair : (d, c) ≡ (e, b) = ap (λ s. or_else s (d, c)) (rw (n, z) at h) in
        let same : c ≡ b = ap (λ s. s.1) pair in
        (ap some same, ap (λ s. s.expected_ms) (sym same) ∙ n ∙ ap (λ s. some s.0) pair)
  ]
]

resolve-Compared :
    (over : ℕ → ℕ → Bool) (o : Options) (h : History) (run : ActiveRun) {e : ℕ} {b : Baseline}
    → resolve_baseline (build_baselines over o (some h)) run.repo run.workflow_name ≡ some b
    → b.expected_ms ≡ some e
    → Compared over o h run e b
unfolding resolve_baseline build_baselines
resolve-Compared over o h run {e} {b} r k =
    let of_run = workflow_durations h run.repo run.workflow_name in
    elim (Option-cases (entry over o of_workflow of_run)) [
      | inr (c, n) ↦
          inl (entry-IsFrom over o of_workflow of_run {e = e} {b = b} (n ∙ (rw n at r)) k)
      | inl n ↦ elim (Option-cases (entry over o of_repo (repo_durations h run.repo))) [
        | inr (c, m) ↦ inr (
            inl (
              n,
              entry-IsFrom over o of_repo (repo_durations h run.repo) {e = e} {b = b}
                  (m ∙ (rw (n, m) at r)) k,
            ))
        | inl m ↦ inr (
            inr (
              n,
              m,
              baseline-IsFrom over o of_fleet (fleet_durations h) {e = e} {b = b}
                  (fleet-some (length (fleet_durations h))
                    (baseline over o of_fleet (fleet_durations h)) {b = b} (rw (n, m) at r))
                  k,
            ))
      ]
    ]

-- Longer than the floor and than the multiple of the expected duration.
abbrev pub RunsOver : Options → ℕ → ℕ → Option ℕ → Type 0
RunsOver o now e started =
    (t : ℕ) × (started ≡ some t)
    × (o.floor_ms < now - t)
    × ((e * o.multiplier + 50) / 100 < now - t)

judge-RunsOver :
    (o : Options) (now : ℕ) (started : Option ℕ) (r : Option (ℕ × Baseline))
    → (judge o (elapsed now started) r).long_running ≡ true
    → (e : ℕ) × ((b : Baseline) × (r ≡ some (e, b)) × RunsOver o now e started)
unfolding judge threshold
judge-RunsOver o now started none h = absurd (cc h)
judge-RunsOver o now none (some (e, b)) h = absurd (cc h)
judge-RunsOver o now (some t) (some (e, b)) h =
    let (k, l) = beyond o.floor_ms ((e * o.multiplier + 50) / 100) (now - t) h in
    (e, (b, refl, (t, refl, k, l)))
  where
    beyond : (m n d : ℕ) → ltb (max m n) d ≡ true → (m < d) × (n < d)
    beyond m n d h = let k = ltb→lt (max m n) d h in (omega (arith, k), omega (arith, k))

-- A run that is flagged is in progress and has a known start; there were at least `min_samples`
-- completed runs or jobs of its workflow, or failing that of its repository, or failing that of the
-- fleet, to take the expected duration from as their percentile; and it has been running for longer
-- than the floor and longer than the multiple of that.
pub flagged_fairly :
    (over : ℕ → ℕ → Bool) (o : Options) (h : History) (now : ℕ) (run : ActiveRun)
    → (annotate o (build_baselines over o (some h)) now run).long_running ≡ true
    → (str_eq run.status "in_progress" ≡ true)
      × ((e : ℕ) × ((b : Baseline) × Compared over o h run e b × RunsOver o now e run.started_at))
unfolding annotate
flagged_fairly over o h now run k = elim (Bool-cases (str_eq run.status "in_progress")) [
  | inr e ↦ absurd (cc (rw e at k))
  | inl e ↦
      let found = resolve_baseline (build_baselines over o (some h)) run.repo run.workflow_name in
      let (d, (b, p, q)) = judge-RunsOver o now run.started_at (expected_of found) (rw e at k) in
      let (m, n) = expected-some found {e = d} {b = b} p in
      (e, (d, (b, resolve-Compared over o h run {e = d} {b = b} m n, q)))
]
