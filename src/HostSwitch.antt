-- ===== src/HostSwitch.antt =====
-- dashboard/lib/host-switch.js: what switching a host off costs, and which drains did not hold.
-- Times are milliseconds; `now - t < d` is written `now < t + d`, which is the same test on integers.
pub mod Stranded
pub mod Reassert
mod Examples
use actions_runners.Prelude.{
  ℕ, ◌+◌, String, Bool, true, false, ◌&&◌, ◌||◌, not, Option, none, some, List, [], ◌∷◌, map,
  length, filter, any, ltb, if◌then◌else◌, or_else, str_eq, str_lt, truthy, lookup, insert, sort,
  unique,
}
use Prim.Native.String.{◌++◌}
use actions_runners.Runner.{Runner, is_busy, has_drain, is_online, is_running, is_draining}

-- `serving`: a runner that would take a job for its repo right now.
unfoldable pub serving : Runner → Bool
serving r =
    not (has_drain r) && not r.host_off && not r.host_stale && not r.ephemeral && is_online r

pub record Impact : Type 0 where
  pub runners : ℕ
  pub active : ℕ
  pub busy : List String
  pub stranded : List String

-- `fleetRunners.filter((r) => r.hostId === hostId && !r.ephemeral)`
unfoldable pub on_host : String → List Runner → List Runner
on_host host rs = filter (λ r. str_eq r.host_id host && not r.ephemeral) rs

-- The set `elsewhere`, as a list of repos.
unfoldable pub served_elsewhere : String → List Runner → List String
unfolding serving
served_elsewhere host rs =
    map (λ r. r.repo) (filter (λ r. not (str_eq r.host_id host) && serving r) rs)

-- `switchOffImpact`
unfoldable pub switch_off_impact : String → List Runner → Impact
unfolding on_host served_elsewhere serving
switch_off_impact host rs =
    let here = on_host host rs in
    let active = filter (λ r. not (has_drain r)) here in
    let elsewhere = served_elsewhere host rs in
    record {
      runners = length here;
      active = length active;
      busy = sort str_lt (map (λ r. r.name) (filter is_busy active));
      stranded = sort str_lt (
          filter (λ repo. not (any (str_eq repo) elsewhere))
            (unique (map (λ r. r.repo) (filter serving here))));
    }

-- What is remembered of one drained runner that runs anyway.
pub record Sighting : Type 0 where
  pub since : ℕ
  pub acted_at : Option ℕ

pub record Due : Type 0 where
  pub name : String
  pub dir_name : String
  pub by : Option String

abbrev pub Seen : Type 0
Seen = List (String × Sighting)

-- The two `continue` tests at the head of the loop: the runner is a drain that did not hold.
unfoldable pub not_held : Runner → Bool
not_held r =
    truthy r.dir_name
    && has_drain r
    && is_running r.launchd_state
    && not (is_draining r.drain_state && r.working_locally)

abbrev pub first_sighting : ℕ → Sighting
first_sighting now = record { since = now; acted_at = none }

-- `actedAt != null && now - actedAt < retryMs`
abbrev acted_within : ℕ → ℕ → Option ℕ → Bool
acted_within now retry none = false
acted_within now retry (some t) = ltb now (t + retry)

-- The last two tests of the loop: past its grace, and not acted on within `retry`.
unfoldable pub is_due : ℕ → ℕ → ℕ → Sighting → Bool
is_due now grace retry s =
    not (ltb now (s.since + grace)) && not (acted_within now retry s.acted_at)

-- One round of the loop on a runner's sighting.
unfoldable pub advance : ℕ → ℕ → ℕ → Sighting → Sighting
unfolding is_due
advance now grace retry s = if is_due now grace retry s then record s { acted_at = some now } else s

abbrev pub dir_of : Runner → String
dir_of r = or_else r.dir_name ""

-- What is known of a runner when the loop comes to it: `seen.get(r.dirName) ?? { ... }`.
abbrev pub sighting_of : ℕ → Seen → String → Sighting
sighting_of now seen dir = or_else (lookup dir seen) (first_sighting now)

-- The loop of `drainsToReassert`; `seen` is the map of the call before, `next` the new one.
unfoldable pub reassert_loop : ℕ → ℕ → ℕ → Seen → List Runner → Seen → List Due × Seen
reassert_loop now grace retry seen [] next = ([], next)
reassert_loop now grace retry seen (r ∷ rs) next =
    let s = sighting_of now seen (dir_of r) in
    let (due, last) =
      reassert_loop now grace retry seen rs
        (if not_held r then insert (dir_of r) (advance now grace retry s) next else next) in
    (
      if not_held r && is_due now grace retry s
          then record { name = r.name; dir_name = dir_of r; by = r.drain_by } ∷ due
          else due,
      last,
    )

-- `drainsToReassert`
unfoldable pub drains_to_reassert : ℕ → ℕ → ℕ → Seen → List Runner → List Due × Seen
unfolding reassert_loop
drains_to_reassert now grace retry seen rs = reassert_loop now grace retry seen rs []

-- The defaults of `graceMs` and `retryMs`.
abbrev pub grace_ms : ℕ
grace_ms = 30000

abbrev pub retry_ms : ℕ
retry_ms = 300000

-- `reassertArgs`: the arguments of drain-runner.sh.
unfoldable pub reassert_args : Due → List String
reassert_args d =
    d.dir_name ∷ "--drain" ∷ (if truthy d.by then ("--by=" ++ or_else d.by "") ∷ [] else [])
