-- ===== src/HostSwitch/Examples.antt =====
-- Two hosts and a drain that a reboot undid, and the theorems of this component at them.
use mathlib.Core.Logic.{◌↔◌}
use actions_runners.Prelude.{
  ◌≡◌, refl, true, some, List, [], ◌∷◌, arith, In, lookup-nil, sort, unique,
}
use actions_runners.Runner.{Runner, drained, idle_runner}
use actions_runners.HostSwitch.{Sighting, switch_off_impact, drains_to_reassert, not_held}
use actions_runners.HostSwitch.Stranded.{Served, switched_off, stranded_iff}
use actions_runners.HostSwitch.Reassert.{Quiet, acts_on, run_calls, reassert-first_act}

-- One repo on both hosts, one on the first alone.
abbrev fleet : List Runner
fleet =
    idle_runner
    ∷ record idle_runner { name = "mac-2"; host_id = "mini" }
    ∷ record idle_runner { name = "mac-3"; repo = "o/site" }
    ∷ []

fleet_impact : (switch_off_impact "ultra" fleet).stranded ≡ "o/site" ∷ []
unfolding switch_off_impact sort unique
fleet_impact = refl

stranded_iff_example :
    In "o/site" (switch_off_impact "ultra" fleet).stranded
    ↔ (Served fleet "o/site" × ¬ Served (switched_off "ultra" fleet) "o/site")
stranded_iff_example = stranded_iff "ultra" fleet "o/site"

-- A drained runner whose service runs.
abbrev revived : List Runner
revived = record idle_runner { drain_state = some drained; drain_by = some "host" } ∷ []

reassert-first_act_example :
    Quiet 30 300 "app" [] ((1000, revived) ∷ (1015, revived) ∷ [])
    × (acts_on "app"
          (drains_to_reassert 1030 30 300
            (run_calls 30 300 [] ((1000, revived) ∷ (1015, revived) ∷ []))
            revived).0
        ≡ true)
unfolding not_held
reassert-first_act_example =
    reassert-first_act 30 300 1000 1030 "app" [] revived revived ((1015, revived) ∷ [])
      (lookup-nil Sighting "app") (refl, omega arith, (refl, omega arith, tt)) refl (omega arith)
