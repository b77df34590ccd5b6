-- ===== src/Placement.antt =====
-- `choosePlacement` (dashboard/lib/placement.js): the host of the next runner. `load_per_core` is
-- what `loadPerCoreOf` returns, in thousandths, and a score is 2000 times the source's. `lower`
-- stands for String.prototype.toLowerCase, and `locale` says that localeCompare is negative.
pub mod Best
mod Examples
use actions_runners.Prelude.{
  Bool, List, Option, String, [], all, any, false, filter, first, if◌then◌else◌, ltb, map, none,
  not, or_else, some, sort, str_eq, true, ℕ, ◌&&◌, ◌*◌, ◌+◌, ◌-◌, ◌==◌, ◌||◌, ◌∷◌,
}

-- The verdict of `headroom` that a host reports.
pub record Room : Type 0 where
  pub ok : Bool
  pub max_total_runners : Option ℕ
  pub reasons : List String

-- A host as it was last heard of; `last_heartbeat` is 0 if it never was.
pub record Host : Type 0 where
  pub id : Option String
  pub name : Option String
  pub drained : Bool
  pub last_heartbeat : ℕ
  pub room : Option Room
  pub labels : List String
  pub repos : List String
  pub runner_count : ℕ
  pub load_per_core : ℕ

pub data Reason : Type 0 where
  drained : Reason
  never_heard : Reason
  stale_for : ℕ → Reason
  no_headroom : List String → Reason
  missing : List String → Reason
  fits : ℕ → ℕ → Reason

-- `record`, of a host; `score` is 0 where the source has null.
pub record Considered : Type 0 where
  pub id : Option String
  pub host : Option String
  pub eligible : Bool
  pub reason : Reason
  pub score : ℕ

-- What is asked for.
pub record Wish : Type 0 where
  pub repo : String
  pub required : List String
  pub now : ℕ
  pub require_headroom : Bool

pub data Placement : Type 0 where
  nowhere : List Considered → Placement
  chosen : Considered → List Considered → List Considered → Placement

-- `STALE_HEARTBEAT_MS`
abbrev pub stale_heartbeat_ms : ℕ
stale_heartbeat_ms = 120000

abbrev pub host_name : Host → Option String
host_name h = first h.name h.id

unfoldable pub free_slots : Host → ℕ
free_slots h = elim h.room [
  | none ↦ 8 - h.runner_count
  | some r ↦ or_else r.max_total_runners 8 - h.runner_count
]

-- `scoreHost`
unfoldable pub score_host : Host → String → ℕ
score_host h repo =
    free_slots h * 20000
    + (2000 - h.load_per_core) * 5
    + (if any (str_eq repo) h.repos then 4000 else 0)

-- `host.capacity?.ok ?? false`
unfoldable pub has_room : Host → Bool
has_room h = elim h.room [ none ↦ false | some r ↦ r.ok ]

unfoldable pub room_reasons : Host → List String
room_reasons h = elim h.room [ none ↦ "unknown" ∷ [] | some r ↦ r.reasons ]

module _ (lower : String → String) where
  abbrev pub has_label : Host → String → Bool
  has_label h l = any (str_eq (lower l)) (map lower h.labels)

  -- `hasLabels`
  unfoldable pub has_labels : Host → List String → Bool
  has_labels h required = all (has_label h) required

  -- Why a host is refused, if it is.
  unfoldable pub refusal : Wish → Host → Option Reason
  unfolding has_room room_reasons has_labels
  refusal w h =
      if h.drained
      then some drained
      else if h.last_heartbeat == 0
      then some never_heard
      else if ltb (h.last_heartbeat + stale_heartbeat_ms) w.now
      then some (stale_for (w.now - h.last_heartbeat))
      else if w.require_headroom && not (has_room h)
      then some (no_headroom (room_reasons h))
      else if not (has_labels h w.required)
      then some (missing (filter (λ l. not (has_label h l)) w.required))
      else none

  -- A round of the loop.
  unfoldable pub consider : Wish → Host → Considered
  unfolding score_host
  consider w h = elim (refusal w h) [
    | some why ↦ record {
      id = first h.id h.name;
      host = host_name h;
      eligible = false;
      reason = why;
      score = 0;
    }
    | none ↦ record {
      id = first h.id h.name;
      host = host_name h;
      eligible = true;
      reason = fits h.runner_count h.load_per_core;
      score = score_host h w.repo;
    }
  ]

  module _ (locale : String → String → Bool) where
    abbrev pub preferred : Considered → Considered → Bool
    preferred a b =
        ltb b.score a.score
        || ((a.score == b.score)
            && locale (or_else a.host "undefined") (or_else b.host "undefined"))

    unfoldable pub ranking : Wish → List Host → List Considered
    unfolding consider
    ranking w hosts = sort preferred (filter (λ c. c.eligible) (map (consider w) hosts))

    -- `choosePlacement`
    unfoldable pub choose_placement : Wish → List Host → Placement
    unfolding ranking
    choose_placement w hosts = elim (ranking w hosts) [
      | [] ↦ nowhere (map (consider w) hosts)
      | c ∷ rest ↦ chosen c rest (map (consider w) hosts)
    ]
