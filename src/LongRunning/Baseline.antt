-- ===== src/LongRunning/Baseline.antt =====
-- The expected durations of dashboard/lib/long-running.js.
use actions_runners.Prelude.{
  Bool, List, Option, String, [], filter, first, if◌then◌else◌, is_some, length, ltb, map, min,
  none, not, or_else, some, sort, str_eq, suc, zero, ℕ, ◌%◌, ◌&&◌, ◌*◌, ◌++◌, ◌+◌, ◌-◌, ◌/◌, ◌==◌,
  ◌||◌, ◌∷◌,
}

pub record Options : Type 0 where
  pub percentile : ℕ
  pub multiplier : ℕ
  pub floor_ms : ℕ
  pub min_samples : ℕ

-- `DEFAULTS`
abbrev pub defaults : Options
defaults = record { percentile = 95; multiplier = 150; floor_ms = 900000; min_samples = 3 }

pub record RunRow : Type 0 where
  pub repo : String
  pub workflow_name : Option String
  pub duration_ms : ℕ
  pub conclusion : String

pub record JobRow : Type 0 where
  pub repo : String
  pub duration_ms : ℕ
  pub conclusion : String

-- The rows of the queries.
pub record History : Type 0 where
  pub runs : List RunRow
  pub jobs : List JobRow

-- `timesWork`
abbrev pub times_work : String → Bool
times_work c = str_eq c "success" || str_eq c "failure" || str_eq c "timed_out"

-- `isZombie`
abbrev pub is_zombie : RunRow → Bool
is_zombie r = str_eq r.conclusion "cancelled" && ltb 3600000 r.duration_ms

-- `Math.ceil((p / 100) * n)` in floating point. The product is as near to the exact one as makes no
-- difference to `ceil`, but where that is a whole number and the float is above it (`p` = 28 and `n` = 25,
-- 7 and 100), which `over` says.
abbrev pub ceil_of : (ℕ → ℕ → Bool) → ℕ → ℕ → ℕ
ceil_of over p n =
    if over p n && ((p * n) % 100 == 0) then (p * n) / 100 + 1 else (p * n + 99) / 100

-- The index in `pct`, of a list of `n` durations.
abbrev pub rank : (ℕ → ℕ → Bool) → ℕ → ℕ → ℕ
rank over p n = min (n - 1) (ceil_of over p n - 1)

abbrev pub nth : List ℕ → ℕ → Option ℕ
nth [] i = none
nth (x ∷ xs) zero = some x
nth (x ∷ xs) (suc i) = nth xs i

-- `pct`
unfoldable pub pct : (ℕ → ℕ → Bool) → List ℕ → ℕ → Option ℕ
pct over sorted p = nth sorted (rank over p (length sorted))

pub data Scope : Type 0 where
  of_workflow of_repo of_fleet : Scope

pub record Baseline : Type 0 where
  pub expected_ms : Option ℕ
  pub n : ℕ
  pub scope : Scope

abbrev pub counts_run : RunRow → Bool
counts_run r = not (is_zombie r || not (times_work r.conclusion))

abbrev pub counts_job : JobRow → Bool
counts_job j = times_work j.conclusion

abbrev pub same_workflow : String → Option String → RunRow → Bool
same_workflow repo wf r = str_eq r.repo repo && str_eq (or_else r.workflow_name "") (or_else wf "")

-- `runDurs.get(wfKey(repo, workflow))`
unfoldable pub workflow_durations : History → String → Option String → List ℕ
workflow_durations h repo wf =
    map (λ r. r.duration_ms) (filter (λ r. counts_run r && same_workflow repo wf r) h.runs)

-- `repoDurs.get(repo)`
unfoldable pub repo_durations : History → String → List ℕ
repo_durations h repo =
    map (λ r. r.duration_ms) (filter (λ r. counts_run r && str_eq r.repo repo) h.runs)
    ++ map (λ j. j.duration_ms) (filter (λ j. counts_job j && str_eq j.repo repo) h.jobs)

-- `fleetDurs`
unfoldable pub fleet_durations : History → List ℕ
fleet_durations h =
    map (λ r. r.duration_ms) (filter counts_run h.runs)
    ++ map (λ j. j.duration_ms) (filter counts_job h.jobs)

-- A baseline from enough durations.
unfoldable pub baseline : (ℕ → ℕ → Bool) → Options → Scope → List ℕ → Option Baseline
unfolding pct
baseline over o scope durs =
    if ltb (length durs) o.min_samples
    then none
    else some (record {
      expected_ms = pct over (sort ltb durs) o.percentile;
      n = length durs;
      scope = scope;
    })

-- The maps of `buildDurationBaselines`, as functions of their keys; none are in them without a database.
-- A Map has a key only where there was a duration.
unfoldable pub entry : (ℕ → ℕ → Bool) → Options → Scope → List ℕ → Option Baseline
unfolding baseline
entry over o scope [] = none
entry over o scope (d ∷ ds) = baseline over o scope (d ∷ ds)

pub record Baselines : Type 0 where
  pub by_workflow : String → Option String → Option Baseline
  pub by_repo : String → Option Baseline
  pub fleet : Baseline

abbrev pub fleet_of : ℕ → Option Baseline → Baseline
fleet_of n none = record { expected_ms = none; n = n; scope = of_fleet }
fleet_of n (some b) = b

-- `buildDurationBaselines`
unfoldable pub build_baselines : (ℕ → ℕ → Bool) → Options → Option History → Baselines
unfolding entry
build_baselines over o none = record {
  by_workflow = λ repo wf. none;
  by_repo = λ repo. none;
  fleet = fleet_of 0 none;
}
build_baselines over o (some h) = record {
  by_workflow = λ repo wf. entry over o of_workflow (workflow_durations h repo wf);
  by_repo = λ repo. entry over o of_repo (repo_durations h repo);
  fleet = fleet_of (length (fleet_durations h)) (baseline over o of_fleet (fleet_durations h));
}

abbrev pub fleet_entry : Baseline → Option Baseline
fleet_entry b = if is_some b.expected_ms then some b else none

-- `resolveBaseline`
unfoldable pub resolve_baseline : Baselines → String → Option String → Option Baseline
resolve_baseline b repo wf =
    first (b.by_workflow repo wf) (first (b.by_repo repo) (fleet_entry b.fleet))
