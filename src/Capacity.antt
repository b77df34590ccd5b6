-- ===== src/Capacity.antt =====
-- dashboard/lib/capacity.js: whether a host can take one more runner. A measure that the source
-- holds as a float (load, gigabytes, swap-ins) is a natural number in a fixed unit of its own, and
-- `load1 / cores > limit` is written `limit * cores < load1`. A reason is a constructor with the
-- values that its text shows.
pub mod Laws
mod Examples
use actions_runners.Prelude.{
  Bool, List, Option, String, [], filter, if◌then◌else◌, is_nil, leb, length, ltb, none, not, some,
  str_eq, true, truthy, ℕ, ◌&&◌, ◌*◌, ◌++◌, ◌==◌, ◌∷◌,
}
use actions_runners.Runner.{Runner, is_busy}

-- `CAPACITY_DEFAULTS`, the type of its fields.
pub record Limits : Type 0 where
  pub max_total_runners : ℕ
  pub ceiling : ℕ
  pub load_per_core : ℕ
  pub min_free_disk : ℕ
  pub max_swapins : ℕ
  pub block_on_pressure : Bool

-- `CAPACITY_DEFAULTS`, with loads in hundredths.
abbrev pub default_limits : Limits
default_limits = record {
  max_total_runners = 32;
  ceiling = 3;
  load_per_core = 400;
  min_free_disk = 40;
  max_swapins = 20;
  block_on_pressure = true;
}

-- The vitals of a host; `none` is a value that was not measured.
pub record Vitals : Type 0 where
  pub cores : ℕ
  pub load1 : Option ℕ
  pub disk_free : Option ℕ
  pub mem_pressure : Option String
  pub swapins : Option ℕ

-- The night cap, as `headroom` is told of it.
pub record Cap : Type 0 where
  pub active : Bool
  pub max_busy : ℕ

pub data Reason : Type 0 where
  night_cap : ℕ → Reason
  fleet_full : ℕ → ℕ → Reason
  busy_now : ℕ → ℕ → Reason
  overloaded : ℕ → ℕ → ℕ → Reason
  disk_low : ℕ → ℕ → Reason
  pressure : String → Reason
  swapping : ℕ → Reason

pub record Headroom : Type 0 where
  pub ok : Bool
  pub busy : ℕ
  pub ceiling : ℕ
  pub max_total_runners : ℕ
  pub reasons : List Reason

-- `busyCount`
unfoldable pub busy_count : List Runner → ℕ
busy_count rs = length (filter is_busy rs)

-- `if (test) reasons.push(reason)`
abbrev pub when : Bool → Reason → List Reason
when b r = if b then r ∷ [] else []

-- `nightCap?.active`
unfoldable pub night_reasons : Option Cap → List Reason
night_reasons none = []
night_reasons (some n) = when n.active (night_cap n.max_busy)

-- `host.cores || 1`
abbrev pub core_count : Vitals → ℕ
core_count h = if h.cores == 0 then 1 else h.cores

unfoldable pub load_reasons : Limits → Vitals → Option ℕ → List Reason
load_reasons lim h none = []
load_reasons lim h (some l) =
    when (ltb (lim.load_per_core * core_count h) l) (overloaded l (core_count h) lim.load_per_core)

unfoldable pub disk_reasons : Limits → Option ℕ → List Reason
disk_reasons lim none = []
disk_reasons lim (some d) = when (ltb d lim.min_free_disk) (disk_low d lim.min_free_disk)

unfoldable pub pressure_reasons : Limits → Option String → List Reason
pressure_reasons lim none = []
pressure_reasons lim (some p) =
    when (lim.block_on_pressure && truthy (some p) && not (str_eq p "normal")) (pressure p)

unfoldable pub swap_reasons : Limits → Option ℕ → List Reason
swap_reasons lim none = []
swap_reasons lim (some s) = when (ltb lim.max_swapins s) (swapping s)

-- The reasons of `headroom`, in its order.
unfoldable pub reasons_of : Limits → Vitals → Option Cap → ℕ → ℕ → List Reason
unfolding night_reasons load_reasons disk_reasons pressure_reasons swap_reasons
reasons_of lim h cap total busy =
    night_reasons cap
    ++ (when (leb lim.max_total_runners total) (fleet_full total lim.max_total_runners)
        ++ (when (leb lim.ceiling busy) (busy_now busy lim.ceiling)
            ++ (load_reasons lim h h.load1
                ++ (disk_reasons lim h.disk_free
                    ++ (pressure_reasons lim h.mem_pressure ++ swap_reasons lim h.swapins)))))

-- `headroom`
unfoldable pub headroom : Vitals → List Runner → Limits → Option Cap → Headroom
unfolding busy_count reasons_of
headroom h rs lim cap =
    let reasons = reasons_of lim h cap (length rs) (busy_count rs) in
    record {
      ok = is_nil reasons;
      busy = busy_count rs;
      ceiling = lim.ceiling;
      max_total_runners = lim.max_total_runners;
      reasons = reasons;
    }
