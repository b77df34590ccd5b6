-- ===== src/Tiers/Groups.antt =====
-- How the tiers controller (dashboard/lib/tiers.js) sorts its runners, hosts and queued runs.
use Prim.Native.String.{◌++◌ as text_append}
use actions_runners.Prelude.{
  Bool, List, Option, String, [], any, ends_with, false, filter, find?, first, if◌then◌else◌,
  insert, is_nil, is_some, is_text, leb, lookup, ltb, map, none, not, some, sort, str_eq, ℕ, ◌&&◌,
  ◌+◌, ◌==◌, ◌||◌, ◌∷◌,
}
use actions_runners.Runner.{Runner, has_drain, is_busy, is_online}
use actions_runners.Tiers.Types.{Host, Input, Request, operator_drained, own}
use actions_runners.Tiers.Lanes.{blocked_why, primary_runners}
use actions_runners.NightCap.Types.{is_runner_cause}
use actions_runners.NightCap.Slots.{covers}

-- `repoIn`
unfoldable pub repo_in : String → List String → Bool
repo_in repo entries =
    any (λ e. not (str_eq e "") && (str_eq repo e || ends_with repo (text_append "/" e))) entries

-- The entry of a map that the hosts are put into by id: the last one with the id.
unfoldable pub last_host : String → List Host → Option Host
last_host id [] = none
last_host id (h ∷ hs) = first (last_host id hs) (if str_eq h.id id then some h else none)

module _ (lower : String → String) (x : Input) where
  unfoldable pub standby_runners : List Runner
  standby_runners =
      filter (λ r. not r.ephemeral && any (λ h. str_eq h.id r.host_id) x.standby) x.runners

  abbrev pub is_floor : Runner → Bool
  is_floor r = repo_in r.repo x.config.floor_repos

  unfoldable pub floor_runners : List Runner
  floor_runners = filter is_floor standby_runners

  unfoldable pub not_floor : List Runner
  not_floor = filter (λ r. not (is_floor r)) standby_runners

  -- `outside`: the runners whose name is not one of the standby hosts', but for the floor's.
  unfoldable pub outside : List Runner
  outside =
      filter (λ o. not o.ephemeral && not (any (λ r. str_eq r.name o.name) not_floor)) x.runners

  -- A runner that no runner outside can stand in for.
  unfoldable pub is_sole : Runner → Bool
  unfolding covers
  is_sole r =
      if is_nil r.labels
      then any (str_eq r.name) x.prev.sole
      else not (
          any
            (λ o.
              str_eq o.repo r.repo && not (operator_drained o) && covers lower o.labels r.labels)
            outside)

  unfoldable pub sole_names : List String
  unfolding is_sole
  sole_names = map (λ r. r.name) (filter is_sole not_floor)

  unfoldable pub sole_runners : List Runner
  sole_runners = filter (λ r. any (str_eq r.name) sole_names) not_floor

  unfoldable pub overflow_runners : List Runner
  overflow_runners = filter (λ r. not (any (str_eq r.name) sole_names)) not_floor

  -- `jobFits`
  unfoldable pub job_fits : Request → Runner → Bool
  unfolding covers
  job_fits q r = str_eq r.repo q.repo && covers lower r.labels q.labels

  abbrev pub is_idle_online : Runner → Bool
  is_idle_online r = is_online r && not (has_drain r) && not (is_busy r)

  unfoldable pub idle_primary_for : Request → Bool
  idle_primary_for q = any (λ r. job_fits q r && is_idle_online r) (primary_runners x)

  -- A job that runners of the list fit.
  abbrev pub fits_some : List Runner → Request → Bool
  fits_some rs q = any (job_fits q) rs

  unfoldable pub servable : List Request
  servable =
      filter
        (λ q.
          is_runner_cause q.cause
          && (fits_some (primary_runners x) q || fits_some standby_runners q))
        x.queue

  unfoldable pub tier_queue : List Request
  tier_queue =
      filter (λ q. fits_some (primary_runners x) q || fits_some overflow_runners q) servable

  unfoldable pub stuck : List Request
  stuck =
      filter
        (λ q.
          ltb x.config.queue_age_ms q.queued_since_ms
          && not (idle_primary_for q)
          && fits_some overflow_runners q)
        tier_queue

  -- What a step knows of a standby host.
  unfoldable pub host_info : String → Option Host
  unfolding last_host
  host_info id = last_host id x.standby

  abbrev pub reachable : Host → Bool
  reachable h =
      not (h.last_heartbeat == 0) && leb x.now (h.last_heartbeat + x.config.command_stale_ms)

  abbrev pub critical : Host → Bool
  critical h = is_text h.mem_pressure "critical"

  unfoldable pub usable_host : String → Bool
  usable_host id = elim (host_info id) [
    | none ↦ false
    | some h ↦ reachable h && not (critical h) && not h.off && not (is_some (blocked_why x h.id))
  ]

  -- `takesSoon`
  unfoldable pub takes_soon : Request → Runner → Bool
  takes_soon q o =
      not o.ephemeral
      && not (any (λ r. str_eq r.name o.name) overflow_runners)
      && job_fits q o
      && not (operator_drained o)
      && ((is_online o && not (has_drain o)) || own o)

  abbrev pub oldest_first : List Request → List Request
  oldest_first qs = sort (λ a b. ltb b.queued_since_ms a.queued_since_ms) qs

  -- The runner that the loop wakes for a run.
  unfoldable pub wakes : List (String × ℕ) → Request → Option Runner
  wakes taken q =
      let fit =
        filter
          (λ r.
            job_fits q r
            && not (operator_drained r)
            && usable_host r.host_id
            && not (is_some (lookup r.name taken)))
          overflow_runners in
      first (find? is_idle_online fit) (first (find? own fit) (find? (λ r. not (has_drain r)) fit))

  unfoldable pub wake_loop : List (String × ℕ) → List Request → List (String × ℕ)
  unfolding takes_soon wakes
  wake_loop taken [] = taken
  wake_loop taken (q ∷ qs) =
      wake_loop
        (if any (takes_soon q) x.runners
          then taken
          else elim (wakes taken q) [ none ↦ taken | some r ↦ insert r.name q.id taken ])
        qs

  -- `wake`
  unfoldable pub wake : List (String × ℕ)
  unfolding servable
  wake = wake_loop [] (oldest_first servable)

  abbrev pub is_woken : Runner → Bool
  is_woken r = is_some (lookup r.name wake)
