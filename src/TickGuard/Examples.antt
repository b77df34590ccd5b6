-- ===== src/TickGuard/Examples.antt =====
-- Histories of a guard with one place for an abandoned tick, and the guard's theorems at them.
use actions_runners.Prelude.{ℕ, ◌≤◌, ◌≡◌, refl, inl, List, [], ◌∷◌, map, arith, length, none}
use actions_runners.TickGuard.{Config, Tick, ran, refused, run, settle, new_guard}
use actions_runners.TickGuard.Bounds.{
  Event, runs, held, run_events, step, unfinished_step, unfinished, unfinished_bounded,
}
use actions_runners.TickGuard.Spacing.{}
use actions_runners.TickGuard.Recovery.{refused_recovers}

abbrev small : Config
small = record { deadline_ms = 45; abandon_ms = 90; max_abandoned = 1 }

abbrev tick_at : ℕ → ℕ → Tick
tick_at i t = record { id = i; started_at = t; progress = record { stage = none; stage_since = 0 } }

-- Two ticks that never settle, with a call too early between them.
abbrev stuck_twice : List Event
stuck_twice = runs 0 ∷ runs 50 ∷ runs 100 ∷ []

unfinished_twice : unfinished small new_guard [] stuck_twice ≡ 0 ∷ 1 ∷ []
unfolding unfinished unfinished_step step new_guard run
unfinished_twice = refl

refused_third : (run small 200 (run_events small new_guard stuck_twice)).outcome ≡ refused
unfolding new_guard run run_events step
refused_third = refl

unfinished_bounded_example :
    (unfinished small new_guard [] stuck_twice
      ≡ map (λ t. t.id) (held (run_events small new_guard stuck_twice)))
    × (length (unfinished small new_guard [] stuck_twice) ≤ 2)
unfinished_bounded_example = unfinished_bounded small stuck_twice

refused_recovers_example :
    let g = run_events small new_guard stuck_twice in
    ((run small 300 g).outcome ≡ refused)
    × ((run small 300 g).guard ≡ g)
    × ((run small 300 (settle 250 (tick_at 0 0) g).0).outcome ≡ ran)
unfolding new_guard run_events step run
refused_recovers_example =
    refused_recovers small stuck_twice 200 300 250 (tick_at 0 0) refused_third (omega arith)
      (inl refl)
