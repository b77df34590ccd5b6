-- ===== src/TickGuard/Bounds.antt =====
-- What any history of a guard keeps (dashboard/lib/tick-guard.js): few unfinished ticks, far apart.
use mathlib.Core.List.{append-nil, map-append}
use actions_runners.Prelude.{
  ℕ, suc, ◌+◌, ◌≤◌, ◌≡◌, ◌≢◌, refl, ap, inl, inr, Bool-cases, ltb, leb, max, not, Option, none,
  some, List, [], ◌∷◌, ◌++◌, map, arith, length, length-append, length-filter-le, filter, All,
  filter-append, ◌==◌,
}
use actions_runners.TickGuard.{
  Config, Tick, Guard, Result, ran, skipped, refused, run, run_over, launch, settle, clear_current,
  new_guard, has_id,
}

-- What happens to a guard: its loop calls `run`, and a tick's promise settles.
pub data Event : Type 0 where
  runs : ℕ → Event
  settles : ℕ → Tick → Event

unfoldable pub step : Config → Guard → Event → Guard
step c g (runs now) = (run c now g).guard
step c g (settles now t) = (settle now t g).0

-- The ticks that were started and have not settled, oldest first, counted from outside: a `run`
-- that answers `ran` started one, with the guard's next number.
unfoldable pub unfinished_step : Config → Guard → List ℕ → Event → List ℕ
unfinished_step c g us (runs now) = elim (run c now g).outcome [
  | ran ↦ us ++ (g.next_id ∷ [])
  | skipped ↦ us
  | refused ↦ us
]
unfinished_step c g us (settles now t) = filter (λ i. not (i == t.id)) us

unfoldable pub unfinished : Config → Guard → List ℕ → List Event → List ℕ
unfinished c g us [] = us
unfinished c g us (e ∷ es) = unfinished c (step c g e) (unfinished_step c g us e) es

-- The ticks that the guard holds on to, oldest first.
abbrev pub current_list : Option Tick → List Tick
current_list none = []
current_list (some t) = t ∷ []

abbrev pub held : Guard → List Tick
held g = g.abandoned ++ current_list g.current

abbrev ids : List Tick → List ℕ
ids = map (λ t. t.id)

-- A fresh tick, as `run` makes it.
abbrev pub fresh : ℕ → Guard → Tick
fresh now g = record {
  id = g.next_id;
  started_at = now;
  progress = record { stage = none; stage_since = 0 };
}

-- What a call of `run` does to the ticks that are held: nothing, or one more at the end, and then
-- the tick that was current had been running for `abandon_ms`.
pub data RunCase (c : Config) (now : ℕ) (g : Guard) (r : Result) : Type 0 where
  idle : r.outcome ≢ ran → r.guard ≡ g → RunCase c now g r
  started :
      r.outcome ≡ ran
      → held r.guard ≡ held g ++ (fresh now g ∷ [])
      → All (λ t. t.started_at + c.abandon_ms ≤ now) (current_list g.current)
      → (r.guard.abandoned ≡ g.abandoned ++ current_list g.current)
      → length r.guard.abandoned ≤ max (length g.abandoned) c.max_abandoned
      → RunCase c now g r

run_over-RunCase :
    (c : Config) (now : ℕ) (g : Guard) (cur : Option Tick)
    → g.current ≡ cur
    → RunCase c now g (run_over c now g cur)
unfolding run_over launch
run_over-RunCase c now g none e =
    started refl (simp (e, append-nil)) (rw e tt) (simp (e, append-nil)) (omega arith)
run_over-RunCase c now g (some t) e = elim (Bool-cases (ltb now (t.started_at + c.abandon_ms))) [
  | inl young ↦ rw young (idle (λ h. cc) refl)
  | inr old ↦ rw old (elim (Bool-cases (leb c.max_abandoned (length g.abandoned))) [
    | inl full ↦ rw full (idle (λ h. cc) refl)
    | inr room ↦ rw room (
        started refl (simp e) (rw e (ground arith, tt)) (simp e)
          (ground (arith, length-append g.abandoned (t ∷ []))))
  ])
]

pub run-RunCase : (c : Config) (now : ℕ) (g : Guard) → RunCase c now g (run c now g)
unfolding run
run-RunCase c now g = run_over-RunCase c now g g.current refl

unfinished-runs :
    (c : Config) (now : ℕ) (g : Guard) (us : List ℕ)
    → us ≡ ids (held g)
    → unfinished_step c g us (runs now) ≡ ids (held (run c now g).guard)
unfolding unfinished_step
unfinished-runs c now g us e = elim (run-RunCase c now g) [
  | idle o q ↦ ground (arith, e, ap (λ x. ids (held x)) q)
  | started o h _ _ _ ↦
      rw (o, unfinished_step)
        (rw (h, e) (rw (map-append (λ (t : Tick). t.id) (held g) (fresh now g ∷ []))))
]

ids-filter :
    (i : ℕ) (ts : List Tick)
    → filter (λ j. not (j == i)) (ids ts) ≡ ids (filter (λ t. not (has_id i t)) ts)
ids-filter i [] = refl
ids-filter i (t ∷ ts) = ground (arith, ids-filter i ts)

current-settle :
    (i : ℕ) (cur : Option Tick)
    → filter (λ t. not (has_id i t)) (current_list cur) ≡ current_list (clear_current i cur)
unfolding clear_current
current-settle i none = refl
current-settle i (some t) = ground arith

pub held-settle :
    (now : ℕ) (t : Tick) (g : Guard)
    → held (settle now t g).0 ≡ filter (λ x. not (has_id t.id x)) (held g)
unfolding settle
held-settle now t g =
    rw (filter-append (λ x. not (has_id t.id x)) g.abandoned (current_list g.current))
      (rw (current-settle t.id g.current))

unfinished_step-held :
    (c : Config) (g : Guard) (us : List ℕ) (e : Event)
    → us ≡ ids (held g)
    → unfinished_step c g us e ≡ ids (held (step c g e))
unfolding step
unfinished_step-held c g us (runs now) h = unfinished-runs c now g us h
unfinished_step-held c g us (settles now t) h =
    unfold unfinished_step in rw (h, ids-filter t.id (held g), held-settle now t g)

unfoldable pub run_events : Config → Guard → List Event → Guard
run_events c g [] = g
run_events c g (e ∷ es) = run_events c (step c g e) es

unfinished-held :
    (c : Config) (g : Guard) (us : List ℕ) (es : List Event)
    → us ≡ ids (held g)
    → unfinished c g us es ≡ ids (held (run_events c g es))
unfolding unfinished run_events
unfinished-held c g us [] h = h
unfinished-held c g us (e ∷ es) h =
    unfinished-held c (step c g e) (unfinished_step c g us e) es (unfinished_step-held c g us e h)

abbrev pub Capped : Config → Guard → Type 0
Capped c g = length g.abandoned ≤ c.max_abandoned

step-Capped : (c : Config) (g : Guard) (e : Event) → Capped c g → Capped c (step c g e)
unfolding step settle
step-Capped c g (runs now) h = elim (run-RunCase c now g) [
  | idle _ q ↦ rw q h
  | started _ _ _ _ l ↦ omega arith
]
step-Capped c g (settles now t) h =
    omega (arith, length-filter-le (λ x. not (has_id t.id x)) g.abandoned)

pub run_events-Capped :
    (c : Config) (g : Guard) (es : List Event) → Capped c g → Capped c (run_events c g es)
unfolding run_events
run_events-Capped c g [] h = h
run_events-Capped c g (e ∷ es) h = run_events-Capped c (step c g e) es (step-Capped c g e h)

length-ids : (ts : List Tick) → length (ids ts) ≡ length ts
length-ids [] = refl
length-ids (t ∷ ts) = ap suc (length-ids ts)

length-held : (g : Guard) → length (held g) ≤ length g.abandoned + 1
length-held g = ground (arith, length-append g.abandoned (current_list g.current))

-- After any events, from a new guard: the ticks that were started and have not settled are the
-- ones that the guard holds, abandoned ones first, and there are at most `max_abandoned + 1`.
pub unfinished_bounded :
    (c : Config) (es : List Event)
    → (unfinished c new_guard [] es ≡ map (λ t. t.id) (held (run_events c new_guard es)))
      × (length (unfinished c new_guard [] es) ≤ c.max_abandoned + 1)
unfolding new_guard
unfinished_bounded c es =
    let e = unfinished-held c new_guard [] es refl in
    (
      e,
      omega (
        arith,
        ap length e,
        length-ids (held (run_events c new_guard es)),
        length-held (run_events c new_guard es),
        run_events-Capped c new_guard es (omega arith),
      ),
    )
