-- ===== src/LongRunning/Annotate.antt =====
-- What dashboard/lib/long-running.js says of the active runs.
use actions_runners.Prelude.{
  Bool, List, Option, String, false, filter, if◌then◌else◌, ltb, map, max, none, not, or_else, some,
  str_eq, ℕ, ◌&&◌, ◌*◌, ◌+◌, ◌-◌, ◌/◌, ◌==◌,
}
use actions_runners.LongRunning.Baseline.{
  Baseline, Baselines, History, Options, build_baselines, resolve_baseline,
}

-- A run; `started_at` is its time as a number, if it has one that can be read.
pub record ActiveRun : Type 0 where
  pub id : ℕ
  pub status : String
  pub repo : String
  pub workflow_name : Option String
  pub started_at : Option ℕ

pub data Why : Type 0 where
  insufficient_history : Why
  exceeds : ℕ → ℕ → ℕ → Baseline → Why

-- The fields that `annotateActiveRuns` sets.
pub record Note : Type 0 where
  pub long_running : Bool
  pub elapsed_ms : Option ℕ
  pub expected_ms : Option ℕ
  pub threshold_ms : Option ℕ
  pub why : Option Why

-- `thresholdMs`
unfoldable pub threshold : Options → Option ℕ → ℕ
threshold o none = o.floor_ms
threshold o (some e) = max o.floor_ms ((e * o.multiplier + 50) / 100)

-- `startedMs`
abbrev pub elapsed : ℕ → Option ℕ → Option ℕ
elapsed now none = none
elapsed now (some t) = some (now - t)

abbrev pub is_over : Option ℕ → ℕ → Bool
is_over none limit = false
is_over (some e) limit = ltb limit e

-- The baselines with an expected duration that is not 0.
abbrev pub expected_of : Option Baseline → Option (ℕ × Baseline)
expected_of none = none
expected_of (some b) = elim b.expected_ms [
  | none ↦ none
  | some e ↦ if e == 0 then none else some (e, b)
]

unfoldable pub judge : Options → Option ℕ → Option (ℕ × Baseline) → Note
unfolding threshold
judge o ran none = record {
  long_running = false;
  elapsed_ms = ran;
  expected_ms = none;
  threshold_ms = some o.floor_ms;
  why = some insufficient_history;
}
judge o ran (some (e, b)) =
    let limit = threshold o (some e) in
    record {
      long_running = is_over ran limit;
      elapsed_ms = ran;
      expected_ms = some e;
      threshold_ms = some limit;
      why = if is_over ran limit then some (exceeds (or_else ran 0) limit e b) else none;
    }

-- The body of the loop of `annotateActiveRuns`.
unfoldable pub annotate : Options → Baselines → ℕ → ActiveRun → Note
unfolding judge resolve_baseline
annotate o b now run =
    if not (str_eq run.status "in_progress")
    then record {
      long_running = false;
      elapsed_ms = none;
      expected_ms = none;
      threshold_ms = none;
      why = none;
    }
    else judge o (elapsed now run.started_at)
        (expected_of (resolve_baseline b run.repo run.workflow_name))

-- `annotateActiveFromDb`
unfoldable pub annotate_all :
    (ℕ → ℕ → Bool) → Options → Option History → ℕ → List ActiveRun → List (ActiveRun × Note)
unfolding annotate build_baselines
annotate_all over o h now active =
    map (λ run. (run, annotate o (build_baselines over o h) now run)) active

-- `longRunningAlertFindings`, up to the ids and texts of the findings.
unfoldable pub alert_findings : List (ActiveRun × Note) → List (ActiveRun × Note)
alert_findings active = filter (λ a. str_eq a.0.status "in_progress" && a.1.long_running) active
