-- ===== src/TickGuard/Spacing.antt =====
-- The ticks that a guard holds are far apart in time (dashboard/lib/tick-guard.js).

use actions_runners.Prelude.{
  ℕ, ◌+◌, ◌≤◌, inl, inr, Bool, Bool-cases, not, List, [], ◌∷◌, ◌++◌, arith, filter, All, All-append,
  All-filter,
}
use actions_runners.TickGuard.{Config, Tick, Guard, run, settle, new_guard, has_id}
use actions_runners.TickGuard.Bounds.{
  Event, runs, settles, step, held, current_list, fresh, idle, started, run-RunCase, held-settle,
  run_events,
}

-- The calls of `run` come in the order of time.
abbrev pub Timed : ℕ → List Event → Type 0
Timed clock [] = Unit {0}
Timed clock (runs now ∷ es) = (clock ≤ now) × Timed now es
Timed clock (settles now t ∷ es) = Timed clock es

-- Every tick started at least `d` before each one behind it.
abbrev pub Spaced : ℕ → List Tick → Type 0
Spaced d [] = Unit {0}
Spaced d (t ∷ ts) = All (λ u. t.started_at + d ≤ u.started_at) ts × Spaced d ts

-- The abandoned ticks have had `abandon_ms`, and the held ones are that far apart.
record Apart (c : Config) (clock : ℕ) (g : Guard) : Type 0 where
  over : All (λ t. t.started_at + c.abandon_ms ≤ clock) g.abandoned
  spaced : Spaced c.abandon_ms (held g)

Spaced-snoc :
    (d : ℕ) (ts : List Tick) (u : Tick)
    → Spaced d ts
    → All (λ t. t.started_at + d ≤ u.started_at) ts
    → Spaced d (ts ++ (u ∷ []))
Spaced-snoc d [] u s h = (tt, tt)
Spaced-snoc d (t ∷ ts) u s h = (All-append _ ts (u ∷ []) s.0 (h.0, tt), Spaced-snoc d ts u s.1 h.1)

Spaced-filter : (d : ℕ) (p : Tick → Bool) (ts : List Tick) → Spaced d ts → Spaced d (filter p ts)
Spaced-filter d p [] s = tt
Spaced-filter d p (t ∷ ts) s = elim (Bool-cases (p t)) [
  | inl e ↦ rw e (All-filter _ p ts s.0, Spaced-filter d p ts s.1)
  | inr e ↦ rw e (Spaced-filter d p ts s.1)
]

later :
    (d clock now : ℕ) (ts : List Tick)
    → clock ≤ now
    → All (λ t. t.started_at + d ≤ clock) ts
    → All (λ t. t.started_at + d ≤ now) ts
later d clock now [] l h = tt
later d clock now (t ∷ ts) l h = (omega arith, later d clock now ts l h.1)

runs-Apart :
    (c : Config) (clock now : ℕ) (g : Guard)
    → clock ≤ now
    → Apart c clock g
    → Apart c now (run c now g).guard
runs-Apart c clock now g l a = elim (run-RunCase c now g) [
  | idle _ q ↦
      rw q (record { over = later c.abandon_ms clock now g.abandoned l a.over; spaced = a.spaced })
  | started _ h cur ab _ ↦
      let past =
        All-append (λ (t : Tick). t.started_at + c.abandon_ms ≤ now) g.abandoned
          (current_list g.current) (later c.abandon_ms clock now g.abandoned l a.over) cur in
      record {
        over = rw ab past;
        spaced = rw h (Spaced-snoc c.abandon_ms (held g) (fresh now g) a.spaced past);
      }
]

settles-Apart :
    (c : Config) (clock now : ℕ) (t : Tick) (g : Guard)
    → Apart c clock g
    → Apart c clock (settle now t g).0
settles-Apart c clock now t g a = record {
  over = unfold settle in All-filter _ (λ x. not (has_id t.id x)) g.abandoned a.over;
  spaced = rw (held-settle now t g) (Spaced-filter c.abandon_ms _ (held g) a.spaced);
}

run_events-Spaced :
    (c : Config) (clock : ℕ) (g : Guard) (es : List Event)
    → Timed clock es
    → Apart c clock g
    → Spaced c.abandon_ms (held (run_events c g es))
unfolding run_events step
run_events-Spaced c clock g [] h a = a.spaced
run_events-Spaced c clock g (runs now ∷ es) h a =
    run_events-Spaced c now _ es h.1 (runs-Apart c clock now g h.0 a)
run_events-Spaced c clock g (settles now t ∷ es) h a =
    run_events-Spaced c clock _ es h (settles-Apart c clock now t g a)

-- From a new guard, when `run` is called in the order of time: of any two ticks that have not
-- settled, the later one started at least `abandon_ms` after the other.
unfinished-Spaced :
    (c : Config) (es : List Event)
    → Timed 0 es
    → Spaced c.abandon_ms (held (run_events c new_guard es))
unfolding new_guard
unfinished-Spaced c es h = run_events-Spaced c 0 new_guard es h (record { over = tt; spaced = tt })
