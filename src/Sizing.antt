-- ===== src/Sizing.antt =====
-- `sizeFleet` (dashboard/lib/sizing.js): how many runners each repo and role should have. The
-- source's maps by `sizingKey` are functions of a key, and its sets of keys are lists without
-- repeats in insertion order. A row's `delta` is `want - have`; it may be negative before the last
-- pass, so comparisons of it are written as sums. `lower` stands for String.prototype.toLowerCase,
-- and `locale` says that String.prototype.localeCompare is negative; nothing is assumed of either.
pub mod Grants
pub mod Keys
pub mod Rows
pub mod Count
pub mod Cap
mod Examples
use actions_runners.Prelude.{
  Bool, List, Option, String, [], any, false, filter, find?, if◌then◌else◌, leb, length, ltb, map,
  max, min, none, not, or_else, some, sort, str_eq, true, ℕ, ◌&&◌, ◌++◌, ◌+◌, ◌-◌, ◌==◌, ◌||◌, ◌∷◌,
}
use actions_runners.Runner.{Runner}
use actions_runners.Labels.{Key, Run, is_queued, key_of, role_label, same_key}

-- What is measured of a repo's concurrent jobs.
pub record Concurrency : Type 0 where
  pub jobs : ℕ
  pub peak : ℕ
  pub p50 : ℕ
  pub p90 : ℕ

-- `reason`, with the values that its text shows.
pub data Why : Type 0 where
  no_history : Why
  history : ℕ → ℕ → Why
  in_queue : Option String → ℕ → ℕ → Why
  unregistered : ℕ → Why

-- `leaves` is what the last pass adds to the reason.
pub record Row : Type 0 where
  pub key : Key
  pub have : ℕ
  pub want : ℕ
  pub capped : Bool
  pub unserved : Bool
  pub why : Why
  pub leaves : Option ℕ
  pub concurrency : Concurrency

pub record Input : Type 0 where
  pub runners : List Runner
  pub active : List Run
  pub measured : String → Option Concurrency
  pub cap : ℕ
  pub include_unserved : Bool

-- `delta` where it counts as a number of runners to add: `Math.max(0, row.delta)`.
abbrev pub delta : Row → ℕ
delta row = row.want - row.have

abbrev pub of_repo : String → Row → Bool
of_repo repo row = str_eq row.key.repo repo

unfoldable pub unique_keys : List Key → List Key
unique_keys [] = []
unique_keys (k ∷ ks) = k ∷ filter (λ j. not (same_key j k)) (unique_keys ks)

-- The count of a key in a map that counts keys.
unfoldable pub count : Key → List Key → ℕ
count k ks = length (filter (λ j. same_key j k) ks)

abbrev pub runner_key : Runner → Key
runner_key r = record { repo = r.repo; role = role_label r.extra_labels }

-- The granting loop of the last pass, over the rows of one repo, with `left` additions to give.
unfoldable pub give_row : Row → ℕ → Row
give_row row granted =
    if ltb granted (delta row)
    then record row { want = row.have + granted; capped = true; leaves = some granted }
    else record row { want = row.have + granted }

unfoldable pub grant : ℕ → List Row → List Row
unfolding give_row
grant left [] = []
grant left (row ∷ rows) =
    give_row row (min (delta row) left) ∷ grant (left - min (delta row) left) rows

-- The sum of a number of each row.
unfoldable pub total : (Row → ℕ) → List Row → ℕ
total f [] = 0
total f (row ∷ rows) = f row + total f rows

module _ (locale : String → String → Bool) where
  -- The order within a repo: the comparator is negative at `a`, `b`.
  abbrev pub needier : Row → Row → Bool
  needier a b =
      ltb (b.want + a.have) (a.want + b.have)
      || ((b.want + a.have == a.want + b.have)
          && locale (or_else a.key.role "") (or_else b.key.role ""))

  -- The rows of one repo after the last pass.
  unfoldable pub allot : ℕ → List Row → List Row
  unfolding grant total
  allot cap rows = grant (cap - total (λ r. r.have) rows) (sort needier rows)

  -- What the last pass makes of a row of `out`: the row of the same key in its repo's group.
  unfoldable pub settled : ℕ → List Row → Row → Row
  unfolding allot
  settled cap out row =
      or_else (find? (λ s. same_key s.key row.key) (allot cap (filter (of_repo row.key.repo) out)))
        row

-- The final order: the largest deficit first.
abbrev pub starved : Row → Row → Bool
starved a b =
    ltb (delta b) (delta a) || ((delta a == delta b) && ltb b.concurrency.p90 a.concurrency.p90)

module _ (lower : String → String) (x : Input) where
  abbrev pub runner_keys : List Key
  runner_keys = map runner_key x.runners

  abbrev pub queued_keys : List Key
  queued_keys = map (key_of lower) (filter is_queued x.active)

  abbrev pub has_runner : Key → Bool
  has_runner k = any (λ r. str_eq r.repo k.repo) x.runners

  -- `rolesByRepo.get(repo).size`
  unfoldable pub role_count : String → ℕ
  unfolding unique_keys
  role_count repo =
      length (filter (λ k. str_eq k.repo repo) (unique_keys (runner_keys ++ queued_keys)))

  abbrev pub concurrency_of : String → Concurrency
  concurrency_of repo = or_else (x.measured repo) (record { jobs = 0; peak = 0; p50 = 0; p90 = 0 })

  unfoldable pub wanted : Key → ℕ
  unfolding role_count count
  wanted k =
      let history_want = if role_count k.repo == 1 then (concurrency_of k.repo).p90 else 0 in
      max (max history_want (count k runner_keys + count k queued_keys)) 1

  unfoldable pub why_of : Key → ℕ → Why
  unfolding count
  why_of k want =
      let c = concurrency_of k.repo in
      if leb want (count k runner_keys)
      then (if c.jobs == 0 then no_history else history c.p90 c.jobs)
      else if ltb 0 (count k queued_keys)
      then in_queue k.role (count k queued_keys) c.p90
      else history c.p90 c.jobs

  -- A row of the first loop.
  unfoldable pub row_of : Key → Row
  unfolding wanted why_of count
  row_of k = record {
    key = k;
    have = count k runner_keys;
    want = min x.cap (wanted k);
    capped = ltb x.cap (wanted k);
    unserved = false;
    why = why_of k (min x.cap (wanted k));
    leaves = none;
    concurrency = concurrency_of k.repo;
  }

  -- A row for a repo with no runner.
  unfoldable pub unserved_row : Key → Row
  unfolding count
  unserved_row k = record {
    key = k;
    have = 0;
    want = 1;
    capped = false;
    unserved = true;
    why = unregistered (count k queued_keys);
    leaves = none;
    concurrency = concurrency_of k.repo;
  }

  abbrev pub served_keys : List Key
  served_keys = unique_keys (runner_keys ++ filter has_runner queued_keys)

  abbrev pub unserved_keys : List Key
  unserved_keys =
      if x.include_unserved then filter (λ k. not (has_runner k)) (unique_keys queued_keys) else []

  -- `out`, before the last pass.
  unfoldable pub rows : List Row
  unfolding unique_keys row_of unserved_row
  rows = map row_of served_keys ++ map unserved_row unserved_keys

-- `sizeFleet`
unfoldable pub size_fleet : (String → String) → (String → String → Bool) → Input → List Row
unfolding rows settled
size_fleet lower locale x = sort starved (map (settled locale x.cap (rows lower x)) (rows lower x))
