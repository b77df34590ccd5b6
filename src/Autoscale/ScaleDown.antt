-- ===== src/Autoscale/ScaleDown.antt =====
-- `planScaleDown` (dashboard/lib/autoscale.js).
use actions_runners.Prelude.{
  List, Option, String, [], any, filter, if◌then◌else◌, lookup, ltb, none, or_else, some, sort,
  str_eq, ℕ, ◌++◌, ◌+◌, ◌-◌, ◌==◌, ◌∷◌,
}
use actions_runners.Runner.{Drain, Runner, is_busy}
use actions_runners.Labels.{Run}
use actions_runners.Autoscale.Types.{Limits}

-- What is known of a runner's work: its last job and its own age.
pub record Idle : Type 0 where
  pub last_job_at : Option ℕ
  pub age_ms : ℕ

-- Why a duplicate stays.
pub data Skip : Type 0 where
  busy : Skip
  left_to_operator : Drain → Skip
  active_work : Skip
  too_young : ℕ → Skip
  ran_lately : ℕ → Skip

pub data RemoveReason : Type 0 where
  idle_for : ℕ → RemoveReason
  never_ran : ℕ → RemoveReason

pub data DownPlan : Type 0 where
  stay : List (String × Skip) → DownPlan
  remove : String → String → RemoveReason → DownPlan

-- `idle.get(r.name) ?? {}`
unfoldable pub idle_of : List (String × Idle) → String → Idle
idle_of idle name = or_else (lookup name idle) (record { last_job_at = none; age_ms = 0 })

-- The tests on a runner's own age and last job.
unfoldable pub time_skip : ℕ → ℕ → Idle → Option Skip
time_skip now ttl i = if ltb i.age_ms ttl then some (too_young i.age_ms) else elim i.last_job_at [
  | none ↦ none
  | some t ↦ if ltb now (t + ttl) then some (ran_lately (now - t)) else none
]

-- The tests of the loop on one duplicate; `none` is a runner to remove.
unfoldable pub down_skip : ℕ → ℕ → List Run → List (String × Idle) → Runner → Option Skip
unfolding time_skip
down_skip now ttl active idle r = if is_busy r then some busy else elim r.drain_state [
  | some d ↦ some (left_to_operator d)
  | none ↦
      if any (λ a. str_eq a.repo r.repo) active
      then some active_work
      else time_skip now ttl (idle_of idle r.name)
]

unfoldable pub remove_reason : ℕ → Idle → RemoveReason
remove_reason now i = elim i.last_job_at [
  | none ↦ never_ran i.age_ms
  | some t ↦ if t == 0 then never_ran i.age_ms else idle_for (now - t)
]

-- The loop over the duplicates; `skipped` grows at the end.
unfoldable pub down_loop :
    ℕ → ℕ → List Run → List (String × Idle) → List (String × Skip) → List Runner → DownPlan
down_loop now ttl active idle skipped [] = stay skipped
down_loop now ttl active idle skipped (r ∷ rs) = elim (down_skip now ttl active idle r) [
  | some s ↦ down_loop now ttl active idle (skipped ++ ((r.name, s) ∷ [])) rs
  | none ↦ remove r.name r.repo (remove_reason now (idle_of idle r.name))
]

-- `candidates`: the runners past the first of their repo, the highest instance first.
unfoldable pub duplicates : List Runner → List Runner
duplicates rs = sort (λ a b. ltb b.instance_no a.instance_no) (filter (λ r. ltb 1 r.instance_no) rs)

-- `planScaleDown`
unfoldable pub plan_scale_down :
    List Runner → List Run → List (String × Idle) → Limits → ℕ → DownPlan
unfolding down_loop duplicates
plan_scale_down rs active idle lim now =
    down_loop now lim.idle_ttl_ms active idle [] (duplicates rs)
