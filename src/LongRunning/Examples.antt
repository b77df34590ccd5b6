-- ===== src/LongRunning/Examples.antt =====
-- Three builds of a workflow, and a run of it that takes far longer.
use actions_runners.Prelude.{
  Bool, In, List, [], arith, length, ltb, map, place, refl, some, sort, str_eq, true, ℕ, ◌&&◌, ◌*◌,
  ◌+◌, ◌<◌, ◌==◌, ◌||◌, ◌∷◌, ◌≡◌, ◌≤◌,
}
use actions_runners.LongRunning.Baseline.{
  Baseline, History, RunRow, baseline, build_baselines, defaults, entry, fleet_durations, pct, rank,
  repo_durations, resolve_baseline, workflow_durations,
}
use actions_runners.LongRunning.Annotate.{
  ActiveRun, alert_findings, annotate, annotate_all, judge, threshold,
}
use actions_runners.LongRunning.Flagged.{Compared, RunsOver, flagged_fairly}
use actions_runners.LongRunning.Rank.{at_most, pct_nearest, surplus, under}

-- Two products of a percentage and a number that are above the exact ones as floats.
abbrev rounds_up : ℕ → ℕ → Bool
rounds_up p n = (p == 28 && n == 25) || (p == 7 && n == 100)

abbrev built : ℕ → RunRow
built d = record {
  repo = "o/app";
  workflow_name = some "build";
  duration_ms = d;
  conclusion = "success";
}

abbrev three_builds : History
three_builds = record { runs = built 600000 ∷ built 1000000 ∷ built 800000 ∷ []; jobs = [] }

abbrev hung : ActiveRun
hung = record {
  id = 9;
  status = "in_progress";
  repo = "o/app";
  workflow_name = some "build";
  started_at = some 1000;
}

hung_alert :
    map
      (λ a. a.0.id)
      (alert_findings (annotate_all rounds_up defaults (some three_builds) 1501002 (hung ∷ [])))
    ≡ 9 ∷ []
unfolding alert_findings annotate_all annotate judge threshold build_baselines resolve_baseline
    entry baseline workflow_durations repo_durations fleet_durations pct sort place
hung_alert = refl

flagged_fairly_example :
    (str_eq hung.status "in_progress" ≡ true)
    × ((e : ℕ) × ((b : Baseline) × Compared rounds_up defaults three_builds hung e b
          × RunsOver defaults 1501002 e hung.started_at))
unfolding annotate judge threshold build_baselines resolve_baseline entry baseline
    workflow_durations repo_durations fleet_durations pct sort place
flagged_fairly_example = flagged_fairly rounds_up defaults three_builds 1501002 hung refl

abbrev durations : List ℕ
durations = 600000 ∷ 1000000 ∷ 800000 ∷ []

pct_nearest_example :
    (v : ℕ) × (pct rounds_up (sort ltb durations) 95 ≡ some v)
    × In v durations
    × (95 * length durations ≤ 100 * at_most v durations)
    × (100 * under v durations < 95 * length durations + surplus (rounds_up 95 3))
pct_nearest_example =
    pct_nearest rounds_up durations 95 (λ e. omega (arith, e)) (omega arith) (omega arith)

-- 28 percent of 25 durations are 7, and the float is above it: the eighth is taken.
eighth : rank rounds_up 28 25 ≡ 7
eighth = refl
