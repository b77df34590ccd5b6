-- ===== src/TickGuard/Recovery.antt =====
-- How a guard that refuses to start another tick comes back (dashboard/lib/tick-guard.js).
use actions_runners.Prelude.{
  ℕ, ◌+◌, ◌≤◌, ◌<◌, ◌≡◌, refl, sym, ap, ◌∙◌, ◌⊎◌, inl, inr, not, Option, none, some, List, [], ◌∷◌,
  arith, length, length-filter-le, filter, In, In-append,
}
use actions_runners.TickGuard.{
  Config, Tick, Guard, Result, ran, refused, run, run_over, launch, settle, clear_current,
  new_guard, has_id,
}
use actions_runners.TickGuard.Bounds.{
  Event, held, current_list, run_events, Capped, run_events-Capped,
}

-- What a guard looks like when it refuses.
refused_shape :
    (c : Config) (now : ℕ) (g : Guard) (cur : Option Tick)
    → (run_over c now g cur).outcome ≡ refused
    → (t : Tick) × (cur ≡ some t)
      × (t.started_at + c.abandon_ms ≤ now)
      × (c.max_abandoned ≤ length g.abandoned)
unfolding run_over launch
refused_shape c now g none h = cc
refused_shape c now g (some t) h = (t, refl, ground arith, ground arith)

still_refused :
    (c : Config) (now : ℕ) (g : Guard) (t : Tick)
    → t.started_at + c.abandon_ms ≤ now
    → c.max_abandoned ≤ length g.abandoned
    → ((run_over c now g (some t)).outcome ≡ refused) × ((run_over c now g (some t)).guard ≡ g)
unfolding run_over
still_refused c now g t h l = ground arith

run-current :
    (c : Config) (now : ℕ) (g : Guard) (cur : Tick)
    → g.current ≡ some cur
    → run c now g ≡ run_over c now g (some cur)
unfolding run
run-current c now g cur e = ap (run_over c now g) e

starts_again :
    (c : Config) (now : ℕ) (g : Guard) (t : Tick)
    → t.started_at + c.abandon_ms ≤ now
    → length g.abandoned < c.max_abandoned
    → (run_over c now g (some t)).outcome ≡ ran
unfolding run_over launch
starts_again c now g t h l = ground arith

run_over-none : (c : Config) (now : ℕ) (g : Guard) → (run_over c now g none).outcome ≡ ran
unfolding run_over launch
run_over-none c now g = refl

length-filter-lt :
    (t : Tick) (ts : List Tick)
    → In t ts
    → length (filter (λ x. not (has_id t.id x)) ts) < length ts
length-filter-lt t [] i = elim i [ ]
length-filter-lt t (x ∷ xs) (inl e) =
    ground (arith, ap (λ (y : Tick). y.id) e, length-filter-le (λ y. not (has_id t.id y)) xs)
length-filter-lt t (x ∷ xs) (inr i) = ground (arith, length-filter-lt t xs i)

-- The next call after a settle frees the current tick, or a place among the abandoned ones.
after_settle :
    (c : Config) (now : ℕ) (g : Guard) (i : ℕ) (cur : Tick)
    → cur.started_at + c.abandon_ms ≤ now
    → (cur.id ≡ i) ⊎ (length g.abandoned < c.max_abandoned)
    → (run_over c now g (clear_current i (some cur))).outcome ≡ ran
unfolding clear_current launch
after_settle c now g i cur h (inl e) = ground (arith, run_over-none c now g)
after_settle c now g i cur h (inr l) =
    ground (arith, run_over-none c now g, starts_again c now g cur)

refused-settle :
    (c : Config) (now later at : ℕ) (g : Guard) (t cur : Tick)
    → Capped c g
    → g.current ≡ some cur
    → cur.started_at + c.abandon_ms ≤ later
    → In t g.abandoned ⊎ (t ≡ cur)
    → (run c later (settle at t g).0).outcome ≡ ran
unfolding run settle
refused-settle c now later at g t cur k e h (inl i) =
    rw e (after_settle c later _ t.id cur h (inr (omega (arith, length-filter-lt t g.abandoned i))))
refused-settle c now later at g t cur k e h (inr q) =
    rw e (after_settle c later _ t.id cur h (inl (sym (ap (λ (x : Tick). x.id) q))))

held-cases :
    (g : Guard) (t cur : Tick) → g.current ≡ some cur → In t (held g) → In t g.abandoned ⊎ (t ≡ cur)
held-cases g t cur e i = elim (In-append t g.abandoned (current_list g.current) i) [
  | inl j ↦ inl j
  | inr j ↦ one (rw e at j)
]
  where
    one : In t (cur ∷ []) → In t g.abandoned ⊎ (t ≡ cur)
    one (inl q) = inr q
    one (inr n) = elim n [ ]

-- After any events, from a new guard: when `run` refuses, it refuses at every later time too and
-- changes nothing, until a tick that is held settles; the next call after that starts a tick.
pub refused_recovers :
    (c : Config) (es : List Event) (now later at : ℕ) (t : Tick)
    → let g = run_events c new_guard es in
      (run c now g).outcome ≡ refused
      → now ≤ later
      → In t (held g)
      → ((run c later g).outcome ≡ refused)
        × ((run c later g).guard ≡ g)
        × ((run c later (settle at t g).0).outcome ≡ ran)
refused_recovers c es now later at t h l i =
    let g = run_events c new_guard es in
    let k = run_events-Capped c new_guard es (unfold new_guard in omega arith) in
    let (cur, e, old, full) = refused_shape c now g g.current (unfold run in h) in
    let stays = still_refused c later g cur (omega arith) full in
    let same = run-current c later g cur e in
    (
      ap (λ (r : Result). r.outcome) same ∙ stays.0,
      ap (λ (r : Result). r.guard) same ∙ stays.1,
      refused-settle c now later at g t cur k e (omega arith) (held-cases g t cur e i),
    )
