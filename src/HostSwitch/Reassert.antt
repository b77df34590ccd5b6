-- ===== src/HostSwitch/Reassert.antt =====
-- `drainsToReassert` (dashboard/lib/host-switch.js) over successive calls.
use actions_runners.Prelude.{
  ℕ, ◌+◌, ◌<◌, ◌≤◌, String, ◌≡◌, refl, Bool, true, false, ◌&&◌, none, some, List, [], ◌∷◌, arith,
  any, if◌then◌else◌, str_eq, str_eq_iff, lookup, insert, lookup-insert, lookup-nil, ◌⊎◌, inl, inr,
}
use actions_runners.Runner.{Runner}
use actions_runners.HostSwitch.{
  Seen, Sighting, Due, not_held, is_due, advance, dir_of, sighting_of, first_sighting,
  reassert_loop, drains_to_reassert,
}

-- The directory has a runner whose drain did not hold.
abbrev pub stuck : String → List Runner → Bool
stuck d rs = any (λ r. not_held r && str_eq (dir_of r) d) rs

-- The call asks for the directory's drain to be written again.
abbrev pub acts_on : String → List Due → Bool
acts_on d due = any (λ e. str_eq e.dir_name d) due

module _ (now grace retry : ℕ) (seen : Seen) (d : String) where
  loop_lookup :
      (rs : List Runner) (next : Seen)
      → lookup d (reassert_loop now grace retry seen rs next).1 ≡ (
          if stuck d rs
          then some (advance now grace retry (sighting_of now seen d))
          else lookup d next)
  unfolding reassert_loop
  loop_lookup [] next = refl
  loop_lookup (r ∷ rs) next = ground (
    arith,
    str_eq_iff (dir_of r) d,
    lookup-insert (dir_of r) d (advance now grace retry (sighting_of now seen (dir_of r))) next,
    loop_lookup rs next,
    loop_lookup rs
        (insert (dir_of r) (advance now grace retry (sighting_of now seen (dir_of r))) next),
  )

  loop_acts :
      (rs : List Runner) (next : Seen)
      → acts_on d (reassert_loop now grace retry seen rs next).0
        ≡ (stuck d rs && is_due now grace retry (sighting_of now seen d))
  unfolding reassert_loop
  loop_acts [] next = refl
  loop_acts (r ∷ rs) next = ground (
    arith,
    str_eq_iff (dir_of r) d,
    loop_acts rs next,
    loop_acts rs
        (insert (dir_of r) (advance now grace retry (sighting_of now seen (dir_of r))) next),
  )

-- One call, seen from one directory.
module _ (now grace retry : ℕ) (seen : Seen) (rs : List Runner) (d : String) where
  pub reassert_lookup :
      lookup d (drains_to_reassert now grace retry seen rs).1
      ≡ (if stuck d rs then some (advance now grace retry (sighting_of now seen d)) else none)
  unfolding drains_to_reassert
  reassert_lookup = rw (loop_lookup now grace retry seen d rs []) (rw (lookup-nil Sighting d))

  pub reassert_acts :
      acts_on d (drains_to_reassert now grace retry seen rs).0
      ≡ (stuck d rs && is_due now grace retry (sighting_of now seen d))
  unfolding drains_to_reassert
  reassert_acts = loop_acts now grace retry seen d rs []

-- A call: its time and the runners it is given.
abbrev pub Call : Type 0
Call = ℕ × List Runner

-- What is remembered after a row of calls.
unfoldable pub run_calls : ℕ → ℕ → Seen → List Call → Seen
run_calls grace retry seen [] = seen
run_calls grace retry seen ((now, rs) ∷ cs) =
    run_calls grace retry (drains_to_reassert now grace retry seen rs).1 cs

-- No call of the row asks for the directory's drain.
abbrev pub Quiet : ℕ → ℕ → String → Seen → List Call → Type 0
Quiet grace retry d seen [] = Unit {0}
Quiet grace retry d seen ((now, rs) ∷ cs) =
    (acts_on d (drains_to_reassert now grace retry seen rs).0 ≡ false)
    × Quiet grace retry d (drains_to_reassert now grace retry seen rs).1 cs

-- Through the whole row the drain does not hold, and every call comes before `limit`.
abbrev pub StuckUntil : String → ℕ → List Call → Type 0
StuckUntil d limit [] = Unit {0}
StuckUntil d limit ((now, rs) ∷ cs) = (stuck d rs ≡ true) × (now < limit) × StuckUntil d limit cs

-- A sighting that no call before `limit` finds due.
abbrev Waits : ℕ → ℕ → ℕ → Sighting → Type 0
Waits grace retry limit s =
    (s.acted_at ≡ none) × (s.since + grace ≡ limit)
    ⊎ ((t : ℕ) × (s.acted_at ≡ some t) × (t + retry ≡ limit))

Waits-not_due :
    (now grace retry limit : ℕ) (s : Sighting)
    → Waits grace retry limit s
    → now < limit
    → is_due now grace retry s ≡ false
unfolding is_due
Waits-not_due now grace retry limit s (inl (a, e)) h = ground arith
Waits-not_due now grace retry limit s (inr (t, a, e)) h = ground arith

-- While a drain does not hold, its sighting is left alone before `limit`.
stuck_call :
    (now grace retry limit : ℕ) (seen : Seen) (rs : List Runner) (d : String) (s : Sighting)
    → Waits grace retry limit s
    → now < limit
    → stuck d rs ≡ true
    → lookup d seen ≡ some s
    → (acts_on d (drains_to_reassert now grace retry seen rs).0 ≡ false)
      × (lookup d (drains_to_reassert now grace retry seen rs).1 ≡ some s)
unfolding advance
stuck_call now grace retry limit seen rs d s w h b e = ground (
  arith,
  reassert_acts now grace retry seen rs d,
  reassert_lookup now grace retry seen rs d,
  Waits-not_due now grace retry limit s w h,
)

stuck_row :
    (grace retry limit : ℕ) (d : String) (s : Sighting) (seen : Seen) (cs : List Call)
    → Waits grace retry limit s
    → lookup d seen ≡ some s
    → StuckUntil d limit cs
    → Quiet grace retry d seen cs × (lookup d (run_calls grace retry seen cs) ≡ some s)
unfolding run_calls
stuck_row grace retry limit d s seen [] w e h = (tt, e)
stuck_row grace retry limit d s seen ((now, rs) ∷ cs) w e (b, l, h) =
    let (q, e') = stuck_call now grace retry limit seen rs d s w l b e in
    let (qs, e'') =
      stuck_row grace retry limit d s (drains_to_reassert now grace retry seen rs).1 cs w e' h in
    ((q, qs), e'')

first_call :
    (grace retry t : ℕ) (d : String) (seen : Seen) (rs : List Runner)
    → lookup d seen ≡ none
    → stuck d rs ≡ true
    → t < t + grace
    → (acts_on d (drains_to_reassert t grace retry seen rs).0 ≡ false)
      × (lookup d (drains_to_reassert t grace retry seen rs).1 ≡ some (first_sighting t))
unfolding advance is_due
first_call grace retry t d seen rs e b l =
    ground (arith, reassert_acts t grace retry seen rs d, reassert_lookup t grace retry seen rs d)

late_call :
    (now grace retry t : ℕ) (seen : Seen) (rs : List Runner) (d : String)
    → lookup d seen ≡ some (first_sighting t)
    → stuck d rs ≡ true
    → t + grace ≤ now
    → acts_on d (drains_to_reassert now grace retry seen rs).0 ≡ true
unfolding is_due
late_call now grace retry t seen rs d e b le =
    ground (arith, reassert_acts now grace retry seen rs d)

-- A drain that is first seen not to hold at time `t`, and does not hold at any later call, is not
-- written again by the calls before `t + grace`, and is written again by the first call from then on.
pub reassert-first_act :
    (grace retry t now : ℕ) (d : String) (seen : Seen) (rs last : List Runner) (cs : List Call)
    → lookup d seen ≡ none
    → StuckUntil d (t + grace) ((t, rs) ∷ cs)
    → stuck d last ≡ true
    → t + grace ≤ now
    → Quiet grace retry d seen ((t, rs) ∷ cs)
      × (acts_on d
            (drains_to_reassert now grace retry (run_calls grace retry seen ((t, rs) ∷ cs)) last).0
          ≡ true)
unfolding run_calls
reassert-first_act grace retry t now d seen rs last cs e (b, l, h) b' le =
    let (q, e') = first_call grace retry t d seen rs e b l in
    let (qs, e'') =
      stuck_row grace retry (t + grace) d (first_sighting t) _ cs (inl (refl, refl)) e' h in
    ((q, qs), late_call now grace retry t _ last d e'' b' le)

acting_call :
    (grace retry t : ℕ) (d : String) (seen : Seen) (rs : List Runner)
    → acts_on d (drains_to_reassert t grace retry seen rs).0 ≡ true
    → (s : Sighting) × (s.acted_at ≡ some t)
      × (lookup d (drains_to_reassert t grace retry seen rs).1 ≡ some s)
unfolding advance
acting_call grace retry t d seen rs a = (
  record (sighting_of t seen d) { acted_at = some t },
  refl,
  ground (arith, reassert_acts t grace retry seen rs d, reassert_lookup t grace retry seen rs d),
)

-- After a call at time `t` writes a drain again, and while that drain still does not hold at any
-- later call, no call before `t + retry` writes it once more.
reassert-Quiet :
    (grace retry t : ℕ) (d : String) (seen : Seen) (rs : List Runner) (cs : List Call)
    → acts_on d (drains_to_reassert t grace retry seen rs).0 ≡ true
    → StuckUntil d (t + retry) cs
    → Quiet grace retry d (drains_to_reassert t grace retry seen rs).1 cs
reassert-Quiet grace retry t d seen rs cs a h =
    let (s, acted, e) = acting_call grace retry t d seen rs a in
    (stuck_row grace retry (t + retry) d s _ cs (inr (t, acted, refl)) e h).0
