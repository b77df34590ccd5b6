-- ===== src/NightCap/Cap.antt =====
-- The promise of the night cap (dashboard/lib/night-cap.js): busy runners and runners that may still
-- take a job are together no more than the cap.
use actions_runners.Prelude.{Bool, Option, String, false, not, true, ◌&&◌, ◌||◌, ◌≡◌}
use actions_runners.Runner.{Runner, has_drain, is_busy, is_online}
use actions_runners.NightCap.Types.{
  Pending, Sent, drain, enforce, is_pending, own, resume, sent_verb,
}
use actions_runners.NightCap.Slots.{Slots}
use actions_runners.NightCap.Decide.{Input}

-- The runner is idle and may be handed a job: it is online with no drain on its way, or the cap
-- parked it and has sent a resume.
abbrev pub may_take : Pending → Runner → Bool
may_take p r =
    not (is_busy r)
    && (not (has_drain r) && is_online r && not (is_pending drain r.name p)
        || own r && is_pending resume r.name p)

abbrev may_take_by : Option Sent → Runner → Bool
may_take_by s r =
    not (is_busy r)
    && (not (has_drain r) && is_online r && not (sent_verb drain s) || own r && sent_verb resume s)

module _ (lower : String → String) where
  -- The settings of the step are in force: it enforces, inside the window, with the host on.
  abbrev pub InForce : Input → Type 0
  InForce x = (x.config.mode ≡ enforce) × (x.window.active ≡ true) × (x.host_off ≡ false)
