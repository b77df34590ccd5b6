-- ===== src/Tiers/Hysteresis.antt =====
-- How often a lane starts and stops shedding (dashboard/lib/tiers.js).
use mathlib.Core.Path.{subst}
use actions_runners.Prelude.{
  Bool, Bool-cases, List, Option-cases, [], arith, false, if◌then◌else◌, inl, inr, is_some, leb,
  none, not, or_else, refl, true, ℕ, ◌&&◌, ◌+◌, ◌||◌, ◌∷◌, ◌≡◌, ◌≤◌, ◌⊎◌,
}
use actions_runners.Tiers.Types.{Config, Shed}
use actions_runners.Tiers.Lanes.{shed_step}

-- What a step finds of a lane: whether it is at its cap, and for how long it has been so, or not.
pub record Reading : Type 0 where
  pub now : ℕ
  pub at_cap : Bool
  pub cap_for : ℕ
  pub free_for : ℕ

abbrev pub after : Config → Reading → Shed → Shed
after c e s = shed_step c e.now e.at_cap e.cap_for e.free_for s

abbrev same_bool : Bool → Bool → Bool
same_bool a b = if a then b else not b

-- The lane's states after the steps that changed it.
unfoldable pub flips : Config → List Reading → Shed → List Shed
flips c [] s = []
flips c (e ∷ es) s =
    let rest = flips c es (after c e s) in
    if same_bool (after c e s).on s.on then rest else after c e s ∷ rest

-- How long the lane must stay in a state.
abbrev pub hold : Config → Shed → ℕ
hold c s = if s.on then c.self_min_hold_ms else c.self_min_open_ms

-- Each change is to the other state, at a known time, and not before the state that it ends has been
-- held; a lane that never changed may start at once.
abbrev pub Spaced : Config → Shed → List Shed → Type 0
Spaced c s [] = Unit {0}
Spaced c s (t ∷ ts) =
    (t.on ≡ not s.on)
    × ((s.since ≡ none) ⊎ (or_else s.since 0 + hold c s ≤ or_else t.since 0))
    × (is_some t.since ≡ true)
    × Spaced c t ts

step_cases :
    (c : Config) (e : Reading) (s : Shed)
    → (after c e s ≡ s)
      ⊎ ((after c e s).on ≡ not s.on)
        × ((s.since ≡ none) ⊎ (or_else s.since 0 + hold c s ≤ or_else (after c e s).since 0))
        × (is_some (after c e s).since ≡ true)
unfolding shed_step
step_cases c e s =
    elim (Bool-cases (
      not s.on
      && e.at_cap
      && leb c.self_drain_after_ms e.cap_for
      && (not (is_some s.since) || leb (or_else s.since 0 + c.self_min_open_ms) e.now))) [
        | inl g ↦ rw g (inr (ground arith, opened g, refl))
        | inr g ↦
            rw g
              (elim (Bool-cases (
                s.on
                && not e.at_cap
                && leb c.self_resume_after_ms e.free_for
                && leb (or_else s.since 0 + c.self_min_hold_ms) e.now)) [
                  | inl h ↦ rw h (inr (ground arith, inr (ground arith), refl))
                  | inr h ↦ rw h (inl refl)
                ])
      ]
  where
    opened :
        (not s.on
            && e.at_cap
            && leb c.self_drain_after_ms e.cap_for
            && (not (is_some s.since) || leb (or_else s.since 0 + c.self_min_open_ms) e.now))
          ≡ true
        → (s.since ≡ none) ⊎ (or_else s.since 0 + hold c s ≤ e.now)
    opened g = elim (Option-cases s.since) [
      | inl n ↦ inl n
      | inr (t, n) ↦ inr (ground (arith, rw n at g))
    ]

-- Whatever a lane's readings are, the changes between shedding and not shedding alternate; a lane
-- that starts to shed does so for at least the minimal hold, and one that stops stays open for at
-- least the minimal opening.
pub flips-Spaced : (c : Config) (es : List Reading) (s : Shed) → Spaced c s (flips c es s)
unfolding flips
flips-Spaced c [] s = tt
flips-Spaced c (e ∷ es) s = elim (step_cases c e s) [
  | inl q ↦
      let same : same_bool (after c e s).on s.on ≡ true = rw q (same_refl s.on) in
      rw same
        (subst (λ t. Spaced c t (flips c es (after c e s))) q (flips-Spaced c es (after c e s)))
  | inr (o, k, n) ↦
      let same : same_bool (after c e s).on s.on ≡ false = rw o (same_not s.on) in
      rw same (o, k, n, flips-Spaced c es (after c e s))
]
  where
    same_refl : (b : Bool) → same_bool b b ≡ true
    same_refl b = ground arith

    same_not : (b : Bool) → same_bool (not b) b ≡ false
    same_not b = ground arith
