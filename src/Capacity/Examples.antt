-- ===== src/Capacity/Examples.antt =====
-- A calm host with one runner, and the laws of headroom at it.
use actions_runners.Prelude.{[], none, refl, some, true, ◌↔◌, ◌∷◌, ◌≡◌}
use actions_runners.Capacity.{Vitals, busy_now, default_limits, headroom}
use actions_runners.Runner.{idle_runner}
use actions_runners.Capacity.Laws.{Fits, headroom_iff}

abbrev calm_host : Vitals
calm_host = record {
  cores = 12;
  load1 = some 300;
  disk_free = some 90;
  mem_pressure = some "normal";
  swapins = none;
}

calm_ok : (headroom calm_host (idle_runner ∷ []) default_limits none).ok ≡ true
unfolding headroom
calm_ok = refl

busy_refused :
    (headroom calm_host [] (record default_limits { ceiling = 0 }) none).reasons ≡ busy_now 0 0 ∷ []
unfolding headroom
busy_refused = refl

headroom_iff_example :
    ((headroom calm_host (idle_runner ∷ []) default_limits none).ok ≡ true)
    ↔ Fits calm_host (idle_runner ∷ []) default_limits none
headroom_iff_example = headroom_iff calm_host (idle_runner ∷ []) default_limits none
