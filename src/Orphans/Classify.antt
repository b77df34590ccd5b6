-- ===== src/Orphans/Classify.antt =====
-- classifyJob and findOrphans (dashboard/lib/orphans.js).
use actions_runners.Prelude.{
  Bool, List, Option, String, [], all, any, false, filter, find?, first, if◌then◌else◌, is_nil,
  is_some, is_text, ltb, min, none, not, or_else, some, sort, starts_with, str_eq, to_list, true,
  truthy, ℕ, ◌&&◌, ◌++◌, ◌+◌, ◌-◌, ◌||◌, ◌∷◌,
}

pub record Step : Type 0 where
  pub name : Option String
  pub status : String
  pub conclusion : Option String
  pub started_at : Option ℕ

pub record Job : Type 0 where
  pub id : ℕ
  pub run_id : Option ℕ
  pub name : Option String
  pub status : String
  pub runner_name : Option String
  pub html_url : Option String
  pub steps : List Step

-- A runner of the glance.
pub record Row : Type 0 where
  pub name : String
  pub state : String

pub record Orphan : Type 0 where
  pub repo : String
  pub run_id : ℕ
  pub job_id : ℕ
  pub job : String
  pub runner : Option String
  pub runner_state : Option String
  pub stuck_step : Option String
  pub stuck_since : ℕ
  pub stuck_for_ms : ℕ
  pub work_passed : Bool
  pub failed_step : Option String
  pub url : Option String

-- `MIN_STUCK_MS`
abbrev pub min_stuck_ms : ℕ
min_stuck_ms = 180000

-- `GONE`
abbrev pub gone_states : List String
gone_states = "draining" ∷ "offline" ∷ "dead" ∷ "lost" ∷ "host-down" ∷ []

abbrev pub is_gone : Option Row → Bool
is_gone none = false
is_gone (some r) = any (str_eq r.state) gone_states

-- `PASSED.has(s.conclusion ?? '')`
abbrev pub passed : Step → Bool
passed s =
    is_text s.conclusion "success"
    || is_text s.conclusion "skipped"
    || is_text s.conclusion "neutral"

abbrev pub is_completed : Step → Bool
is_completed s = str_eq s.status "completed"

abbrev pub is_cancelled : Step → Bool
is_cancelled s = is_text s.conclusion "cancelled"

abbrev pub is_open : Step → Bool
is_open s = not (is_completed s) || is_cancelled s

-- `isFinal`
unfoldable pub is_final : Step → Bool
unfolding starts_with
is_final s = elim s.name [ none ↦ false | some n ↦ starts_with "Complete " n ]

abbrev pub work_of : Job → List Step
work_of j = filter (λ s. not (is_final s)) j.steps

abbrev pub finals_of : Job → List Step
finals_of j = filter is_final j.steps

abbrev pub open_of : Job → List Step
open_of j = filter is_open (finals_of j)

abbrev pub sooner : Option ℕ → Option ℕ → Option ℕ
sooner none b = b
sooner (some t) none = some t
sooner (some t) (some u) = some (min t u)

-- The earliest start of the steps that have one.
unfoldable pub earliest : List Step → Option ℕ
earliest [] = none
earliest (s ∷ ss) = sooner s.started_at (earliest ss)

unfoldable pub last_open : List Step → Option Step
last_open [] = none
last_open (s ∷ ss) = first (last_open ss) (if is_completed s then none else some s)

abbrev pub name_of : Option Step → Option String
name_of none = none
name_of (some s) = s.name

abbrev pub state_of : Option Row → Option String
state_of none = none
state_of (some r) = some r.state

abbrev pub failed_of : Job → Option Step
failed_of j = find? (λ s. not (passed s)) (work_of j)

abbrev pub stuck_of : Job → Option Step
stuck_of j = first (last_open (open_of j)) (find? (λ s. true) (open_of j))

abbrev pub text : Option String → Option String
text o = if truthy o then o else none

unfoldable pub orphan_of : Job → String → Option Row → ℕ → ℕ → Orphan
unfolding last_open is_final
orphan_of j repo runner now since = record {
  repo = repo;
  run_id = or_else j.run_id 0;
  job_id = j.id;
  job = or_else j.name "job";
  runner = text j.runner_name;
  runner_state = state_of runner;
  stuck_step = name_of (stuck_of j);
  stuck_since = since;
  stuck_for_ms = now - since;
  work_passed = not (is_some (failed_of j));
  failed_step = name_of (failed_of j);
  url = j.html_url;
}

-- Every condition of `classifyJob` but those on the time.
unfoldable pub is_suspect : Job → Option Row → Bool
unfolding is_final
is_suspect j runner =
    str_eq j.status "in_progress"
    && not (is_nil (work_of j))
    && all is_completed (work_of j)
    && not (is_nil (open_of j))
    && (any is_cancelled (finals_of j) || is_gone runner)

-- `classifyJob`
unfoldable pub classify : Job → String → Option Row → ℕ → ℕ → Option Orphan
unfolding is_suspect earliest orphan_of
classify j repo runner now least =
    if not (is_suspect j runner) then none else elim (earliest (open_of j)) [
      | none ↦ none
      | some since ↦
          if ltb now (since + least) then none else some (orphan_of j repo runner now since)
    ]

pub record Run : Type 0 where
  pub repo : String
  pub jobs : List Job

-- `byName.get(name)`: the last runner of the name.
unfoldable pub by_name : List Row → Option String → Option Row
by_name [] n = none
by_name (r ∷ rs) n = first (by_name rs n) (if is_text n r.name then some r else none)

unfoldable pub job_loop : List Row → ℕ → String → List Job → List Orphan → List Orphan
unfolding classify by_name
job_loop runners now repo [] out = out
job_loop runners now repo (j ∷ js) out =
    job_loop runners now repo js
      (out ++ to_list (classify j repo (by_name runners j.runner_name) now min_stuck_ms))

unfoldable pub run_loop : List Row → ℕ → List Run → List Orphan → List Orphan
unfolding job_loop
run_loop runners now [] out = out
run_loop runners now (r ∷ rs) out = run_loop runners now rs (job_loop runners now r.repo r.jobs out)

-- `findOrphans`
unfoldable pub find_orphans : List Run → List Row → ℕ → List Orphan
unfolding run_loop
find_orphans runs runners now =
    sort (λ a b. ltb a.stuck_since b.stuck_since) (run_loop runners now runs [])
