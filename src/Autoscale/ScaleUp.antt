-- ===== src/Autoscale/ScaleUp.antt =====
-- `planScaleUp` (dashboard/lib/autoscale.js). What the code's first loop gathers in maps by key is
-- a function of the key here. `lower` stands for String.prototype.toLowerCase.
use actions_runners.Prelude.{
  Bool, List, Option, String, [], any, false, filter, find?, first, if◌then◌else◌, is_nil, is_some,
  is_text, leb, length, ltb, map, min, none, not, or_else, some, sort, str_eq, take, true, unique,
  ℕ, ◌&&◌, ◌+◌, ◌-◌, ◌==◌, ◌||◌, ◌∷◌,
}
use actions_runners.Runner.{Runner, has_drain, is_busy}
use actions_runners.Labels.{
  Key, Run, extra_labels_of, is_queued, key_of, queued_job_labels, role_label, same_key,
  self_hosted,
}
use actions_runners.Autoscale.Types.{Limits}

pub data ScaleMode : Type 0 where
  burst sustained : ScaleMode

pub record Thresholds : Type 0 where
  pub mode : ScaleMode
  pub min_queued_ms : ℕ
  pub cooldown_ms : ℕ

-- `resolveScaleMode`, for work queued since `since`: `waitedMs` is `now - since`.
unfoldable pub resolve_scale_mode : ℕ → ℕ → ℕ → Limits → Thresholds
resolve_scale_mode queued now since lim =
    if lim.burst_scale
      && leb lim.burst_min_queued_jobs queued
      && leb (since + lim.burst_min_queued_ms) now
    then record {
      mode = burst;
      min_queued_ms = lim.burst_min_queued_ms;
      cooldown_ms = lim.burst_scale_cooldown_ms;
    }
    else record {
      mode = sustained;
      min_queued_ms = lim.min_queued_ms;
      cooldown_ms = lim.scale_cooldown_ms;
    }

-- A row of `sizeFleet`, as far as the planner reads it.
pub record SizingRow : Type 0 where
  pub repo : String
  pub role : Option String
  pub have : ℕ
  pub want : ℕ
  pub delta : ℕ
  pub unserved : Bool
  pub p90 : ℕ

-- The diagnosis of a queued run.
pub record Cause : Type 0 where
  pub run_id : ℕ
  pub repo : String
  pub action_eligible : Bool
  pub high_confidence : Bool

-- The input of `buildScaleUpPlan`. `last_up` is `lastUpByRepo` at a key, `last_up_repo` at a repo.
pub record UpInput : Type 0 where
  pub sizing : List SizingRow
  pub capacity_ok : Bool
  pub runners : List Runner
  pub active : List Run
  pub last_up : Key → Option ℕ
  pub last_up_repo : String → Option ℕ
  pub limits : Limits
  pub now : ℕ
  pub causes : Option (List Cause)
  pub revalidate : Bool

pub data Blocked : Type 0 where
  nothing_queued : Blocked
  too_early : ℕ → Blocked
  cooling : ℕ → Blocked
  wrong_cause : Blocked
  no_source : Blocked
  github_hosted : Blocked
  no_labels : Blocked

pub record UpAction : Type 0 where
  pub register : Bool
  pub first_runner : Bool
  pub name : Option String
  pub repo : String
  pub role : Option String
  pub extra_labels : List String

-- A row with what it leads to.
pub record Candidate : Type 0 where
  pub row : SizingRow
  pub scale : Thresholds
  pub action : UpAction

pub data Verdict : Type 0 where
  blocked : Blocked → Verdict
  candidate : Candidate → Verdict

abbrev pub key_of_row : SizingRow → Key
key_of_row row = record { repo = row.repo; role = row.role }

-- The oldest of some times.
unfoldable pub oldest : List ℕ → Option ℕ
oldest [] = none
oldest (t ∷ ts) = elim (oldest ts) [ none ↦ some t | some u ↦ some (min t u) ]

-- `cloneSource`: the pool is the role's runners, if there are any, of those that are not draining.
unfoldable pub clone_pool : List Runner → Option String → List Runner
clone_pool siblings none = filter (λ r. not (has_drain r)) siblings
clone_pool siblings (some role) =
    let pool = filter (λ r. not (has_drain r)) siblings in
    let same = filter (λ r. is_text (role_label r.extra_labels) role) pool in
    if is_nil same then pool else same

unfoldable pub clone_source : List Runner → Option String → Option Runner
clone_source siblings role =
    let pool = clone_pool siblings role in
    first (find? (λ r. not (is_busy r)) pool) (find? (λ r. true) pool)

-- `causeAllows`, on the diagnoses of the row's runs, or else of its repo.
unfoldable pub cause_allows : Option (List Cause) → String → List ℕ → Bool
cause_allows none repo ids = true
cause_allows (some cs) repo ids =
    let of_repo = filter (λ c. str_eq c.repo repo) cs in
    let of_runs = filter (λ c. any (λ i. i == c.run_id) ids) of_repo in
    let read = if is_nil of_runs then of_repo else of_runs in
    is_nil read || any (λ c. c.action_eligible && c.high_confidence) read

module _ (lower : String → String) (x : UpInput) where
  -- The queued runs that are counted under a key.
  unfoldable pub queued_under : Key → List Run
  queued_under k = filter (λ a. is_queued a && is_some a.at && same_key (key_of lower a) k) x.active

  -- `queuedSince.get(key)`
  unfoldable pub queued_since : Key → Option ℕ
  queued_since k = oldest (map (λ a. or_else a.at 0) (queued_under k))

  -- How `queuedLabels` keeps the labels of one run per key: the first, unless a later one alone is
  -- self-hosted.
  unfoldable pub keep_labels : Option (List String) → List Run → Option (List String)
  keep_labels kept [] = kept
  keep_labels kept (a ∷ rs) =
      keep_labels
        (elim (queued_job_labels lower a.jobs) [
          | none ↦ kept
          | some ls ↦ elim kept [
            | none ↦ some (unique ls)
            | some old ↦
                if not (self_hosted lower old) && self_hosted lower ls
                then some (unique ls)
                else some old
          ]
        ])
        rs

  unfoldable pub asked_labels : Key → List String
  unfolding keep_labels
  asked_labels k = or_else (keep_labels none (queued_under k)) []

  unfoldable pub scale_of : SizingRow → ℕ → Thresholds
  scale_of row since =
      resolve_scale_mode (length (queued_under (key_of_row row))) x.now since x.limits

  -- `lastUpByRepo[key] ?? lastUpByRepo[repo] ?? 0`
  unfoldable pub last_up_of : SizingRow → ℕ
  last_up_of row = or_else (first (x.last_up (key_of_row row)) (x.last_up_repo row.repo)) 0

  abbrev pub siblings_of : SizingRow → List Runner
  siblings_of row = filter (λ r. str_eq r.repo row.repo) x.runners

  -- `roleSiblings.length === 0`, for a row with a role
  unfoldable pub role_is_new : SizingRow → Bool
  role_is_new row = elim row.role [
    | none ↦ false
    | some role ↦ not (any (λ r. is_text (role_label r.extra_labels) role) (siblings_of row))
  ]

  -- The row of a repo with no runner to copy.
  unfoldable pub register_first : SizingRow → Thresholds → Verdict
  register_first row th =
      let asked = asked_labels (key_of_row row) in
      if not row.unserved
      then blocked no_source
      else if self_hosted lower asked
      then candidate (record {
        row = row;
        scale = th;
        action = record {
          register = true;
          first_runner = true;
          name = none;
          repo = row.repo;
          role = row.role;
          extra_labels = extra_labels_of lower asked;
        };
      })
      else blocked (if is_nil asked then no_labels else github_hosted)

  -- The row of a repo with a runner to copy.
  unfoldable pub duplicate_of : SizingRow → Thresholds → Runner → Candidate
  duplicate_of row th source =
      let asked = asked_labels (key_of_row row) in
      let new_role = role_is_new row in
      record {
        row = row;
        scale = th;
        action = record {
          register = new_role;
          first_runner = false;
          name = if new_role then none else some source.name;
          repo = row.repo;
          role = row.role;
          extra_labels =
              if new_role
              then extra_labels_of lower (if is_nil asked then source.extra_labels else asked)
              else source.extra_labels;
        };
      }

  unfoldable pub build : SizingRow → Thresholds → Verdict
  build row th = elim (clone_source (siblings_of row) row.role) [
    | none ↦ register_first row th
    | some source ↦ candidate (duplicate_of row th source)
  ]

  -- The tests of the loop, once the row's work is known to be queued since `since`.
  unfoldable pub consider_since : SizingRow → ℕ → Verdict
  consider_since row since =
      let th = scale_of row since in
      if ltb x.now (since + th.min_queued_ms)
      then blocked (too_early since)
      else if ltb x.now (last_up_of row + th.cooldown_ms)
      then blocked (cooling (last_up_of row))
      else if cause_allows x.causes row.repo (map (λ a. a.id) (queued_under (key_of_row row)))
      then build row th
      else blocked wrong_cause

  unfoldable pub consider : SizingRow → Verdict
  consider row = elim (queued_since (key_of_row row)) [
    | none ↦ blocked nothing_queued
    | some since ↦ consider_since row since
  ]

  -- The loop over the rows: the candidates.
  unfoldable pub candidates : List SizingRow → List Candidate
  candidates [] = []
  candidates (row ∷ rows) =
      let rest = candidates rows in
      if row.delta == 0
      then rest
      else elim (consider row) [ blocked b ↦ rest | candidate c ↦ c ∷ rest ]

  -- `rows`: without headroom only repos with no runner at all are considered.
  abbrev pub rows_of : List SizingRow
  rows_of = if x.capacity_ok then x.sizing else filter (λ r. r.unserved) x.sizing

  abbrev pub worse : Candidate → Candidate → Bool
  worse a b = ltb b.row.delta a.row.delta || (a.row.delta == b.row.delta && ltb b.row.p90 a.row.p90)

  unfoldable pub ranked : List Candidate
  ranked = sort worse (candidates rows_of)

-- The plan: nothing, or actions with the deficit that each leaves, and the deficit that is returned.
pub data UpPlan : Type 0 where
  stay : UpPlan
  act : List (UpAction × ScaleMode × ℕ) → ℕ → UpPlan

abbrev pub planned : Candidate → UpAction × ScaleMode × ℕ
planned c = (c.action, c.scale.mode, c.row.delta - 1)

unfoldable pub total_deficit : List Candidate → ℕ
total_deficit [] = 0
total_deficit (c ∷ cs) = c.row.delta + total_deficit cs

-- The `deficit` of a batch: `...actions[0]` comes last, and puts its own over the computed one.
unfoldable pub batch_deficit : ℕ → List Candidate → ℕ
batch_deficit total [] = total
batch_deficit total (c ∷ cs) = c.row.delta - 1

-- `buildScaleUpPlan`, from the ranked candidates on.
unfoldable pub pick : Bool → ℕ → List Candidate → UpPlan
unfolding total_deficit batch_deficit
pick batch most [] = stay
pick batch most (c ∷ cs) =
    let chosen = take most (c ∷ cs) in
    if batch
    then act (map planned chosen) (batch_deficit (total_deficit (c ∷ cs) - length chosen) chosen)
    else act ((c.action, c.scale.mode, total_deficit (c ∷ cs) - 1) ∷ [])
        (total_deficit (c ∷ cs) - 1)

-- `planScaleUp`
unfoldable pub plan_scale_up : (String → String) → UpInput → UpPlan
unfolding pick ranked candidates
plan_scale_up lower x =
    pick (x.revalidate && x.limits.burst_scale) x.limits.burst_max_additions (ranked lower x)
