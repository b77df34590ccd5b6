-- ===== src/Capacity/Laws.antt =====
-- What `headroom` (dashboard/lib/capacity.js) promises.
use actions_runners.Prelude.{
  Bool, Bool-cases, List, Option, String, [], arith, false, if◌then◌else◌, inl, inr, is_nil, leb,
  length, max, none, refl, some, str_eq_iff, true, ℕ, ◌&&◌, ◌*◌, ◌++◌, ◌<◌, ◌↔◌, ◌∷◌, ◌≡◌, ◌≤◌, ◌⊎◌,
}
use actions_runners.Runner.{Runner}
use actions_runners.Capacity.{
  Cap, Limits, Vitals, busy_count, busy_now, core_count, disk_reasons, fleet_full, headroom,
  load_reasons, night_reasons, pressure_reasons, reasons_of, swap_reasons, when,
}

-- A measure that was taken, and passes.
abbrev pub Within : (ℕ → Type 0) → Option ℕ → Type 0
Within P none = Unit {0}
Within P (some n) = P n

abbrev pub CapOff : Option Cap → Type 0
CapOff none = Unit {0}
CapOff (some n) = n.active ≡ false

abbrev pub NoPressure : Limits → Option String → Type 0
NoPressure lim none = Unit {0}
NoPressure lim (some p) = (lim.block_on_pressure ≡ false) ⊎ (p ≡ "") ⊎ (p ≡ "normal")

-- The limits, stated without the code's tests.
pub record Fits (h : Vitals) (rs : List Runner) (lim : Limits) (cap : Option Cap) : Type 0 where
  pub cap_off : CapOff cap
  pub room : length rs < lim.max_total_runners
  pub calm : busy_count rs < lim.ceiling
  pub load : Within (λ l. l ≤ lim.load_per_core * core_count h) h.load1
  pub disk : Within (λ d. lim.min_free_disk ≤ d) h.disk_free
  pub memory : NoPressure lim h.mem_pressure
  pub swap : Within (λ s. s ≤ lim.max_swapins) h.swapins

is_nil-append {ℓ} : {A : Type ℓ} (xs ys : List A) → is_nil (xs ++ ys) ≡ (is_nil xs && is_nil ys)
is_nil-append [] ys = refl
is_nil-append (x ∷ xs) ys = refl

and-true : (a b : Bool) → (a && b) ≡ true → (a ≡ true) × (b ≡ true)
and-true a b h = ground arith

night_iff : (cap : Option Cap) → (is_nil (night_reasons cap) ≡ true) ↔ CapOff cap
unfolding night_reasons
night_iff none = ((λ _. tt), λ _. refl)
night_iff (some n) = ground arith

load_iff :
    (lim : Limits) (h : Vitals) (l : Option ℕ)
    → (is_nil (load_reasons lim h l) ≡ true) ↔ Within (λ l. l ≤ lim.load_per_core * core_count h) l
unfolding load_reasons
load_iff lim h none = ((λ _. tt), λ _. refl)
load_iff lim h (some l) = ground arith

disk_iff :
    (lim : Limits) (d : Option ℕ)
    → (is_nil (disk_reasons lim d) ≡ true) ↔ Within (λ d. lim.min_free_disk ≤ d) d
unfolding disk_reasons
disk_iff lim none = ((λ _. tt), λ _. refl)
disk_iff lim (some d) = ground arith

pressure_iff :
    (lim : Limits) (p : Option String) → (is_nil (pressure_reasons lim p) ≡ true) ↔ NoPressure lim p
unfolding pressure_reasons
pressure_iff lim none = ((λ _. tt), λ _. refl)
pressure_iff lim (some p) = ground (arith, str_eq_iff p "", str_eq_iff p "normal")

swap_iff :
    (lim : Limits) (s : Option ℕ)
    → (is_nil (swap_reasons lim s) ≡ true) ↔ Within (λ s. s ≤ lim.max_swapins) s
unfolding swap_reasons
swap_iff lim none = ((λ _. tt), λ _. refl)
swap_iff lim (some s) = ground arith

-- The parts of the list of reasons.
record Passes (lim : Limits) (h : Vitals) (cap : Option Cap) (total busy : ℕ) : Type 0 where
  night : is_nil (night_reasons cap) ≡ true
  full : leb lim.max_total_runners total ≡ false
  many : leb lim.ceiling busy ≡ false
  load : is_nil (load_reasons lim h h.load1) ≡ true
  disk : is_nil (disk_reasons lim h.disk_free) ≡ true
  memory : is_nil (pressure_reasons lim h.mem_pressure) ≡ true
  swap : is_nil (swap_reasons lim h.swapins) ≡ true

reasons_iff :
    (lim : Limits) (h : Vitals) (cap : Option Cap) (total busy : ℕ)
    → (is_nil (reasons_of lim h cap total busy) ≡ true) ↔ Passes lim h cap total busy
reasons_iff lim h cap total busy =
    let full = when (leb lim.max_total_runners total) (fleet_full total lim.max_total_runners) in
    let many = when (leb lim.ceiling busy) (busy_now busy lim.ceiling) in
    let load = load_reasons lim h h.load1 in
    let disk = disk_reasons lim h.disk_free in
    let memory = pressure_reasons lim h.mem_pressure in
    let swap = swap_reasons lim h.swapins in
    let e : is_nil (reasons_of lim h cap total busy) ≡ (
        is_nil (night_reasons cap)
        && (is_nil full
            && (is_nil many && (is_nil load && (is_nil disk && (is_nil memory && is_nil swap)))))) =
      unfold reasons_of in simp is_nil-append in
    rw e (ground arith)

-- `headroom` says yes exactly when every limit is respected: the night cap is not active, there are
-- fewer runners than the fleet may have and fewer busy ones than the ceiling, and of the load per
-- core, the free disk, the memory pressure and the swap-ins each is unmeasured or within its limit.
pub headroom_iff :
    (h : Vitals) (rs : List Runner) (lim : Limits) (cap : Option Cap)
    → ((headroom h rs lim cap).ok ≡ true) ↔ Fits h rs lim cap
unfolding headroom
headroom_iff h rs lim cap = (to, from)
  where
    to : is_nil (reasons_of lim h cap (length rs) (busy_count rs)) ≡ true → Fits h rs lim cap
    to e =
        let p = (reasons_iff lim h cap (length rs) (busy_count rs)).0 e in
        record {
          cap_off = (night_iff cap).0 p.night;
          room = ground (arith, p.full);
          calm = ground (arith, p.many);
          load = (load_iff lim h h.load1).0 p.load;
          disk = (disk_iff lim h.disk_free).0 p.disk;
          memory = (pressure_iff lim h.mem_pressure).0 p.memory;
          swap = (swap_iff lim h.swapins).0 p.swap;
        }

    from : Fits h rs lim cap → is_nil (reasons_of lim h cap (length rs) (busy_count rs)) ≡ true
    from f = (reasons_iff lim h cap (length rs) (busy_count rs)).1 (record {
      night = (night_iff cap).1 f.cap_off;
      full = ground (arith, f.room);
      many = ground (arith, f.calm);
      load = (load_iff lim h h.load1).1 f.load;
      disk = (disk_iff lim h.disk_free).1 f.disk;
      memory = (pressure_iff lim h.mem_pressure).1 f.memory;
      swap = (swap_iff lim h.swapins).1 f.swap;
    })

-- Runners that are added one at a time, each only when `headroom` says yes.
unfoldable add_allowed : Vitals → Limits → Option Cap → List Runner → List Runner → List Runner
add_allowed h lim cap have [] = have
add_allowed h lim cap have (r ∷ rs) =
    add_allowed h lim cap (if (headroom h have lim cap).ok then r ∷ have else have) rs

-- However many runners are offered to a host one after the other, and each added only when
-- `headroom` says yes, the host ends with no more than the fleet's limit, or with those it had.
add_allowed_bound :
    (h : Vitals) (lim : Limits) (cap : Option Cap) (have offered : List Runner)
    → length (add_allowed h lim cap have offered) ≤ max lim.max_total_runners (length have)
unfolding add_allowed
add_allowed_bound h lim cap have [] = omega arith
add_allowed_bound h lim cap have (r ∷ rs) = elim (Bool-cases (headroom h have lim cap).ok) [
  | inl e ↦ rw e (
      omega (
        arith,
        ((headroom_iff h have lim cap).0 e).room,
        add_allowed_bound h lim cap (r ∷ have) rs,
      ))
  | inr e ↦ rw e (add_allowed_bound h lim cap have rs)
]
