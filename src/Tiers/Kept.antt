-- ===== src/Tiers/Kept.antt =====
-- Which standby runners the tiers controller (dashboard/lib/tiers.js) leaves online in a step.
use actions_runners.Prelude.{
  All, All-In, All-append, All-of, Bool, Bool-cases, In, List, String, [], any, any_of_In,
  append-In_left, append-In_right, false, inl, inr, not, refl, str_eq, ◌++◌, ◌∷◌, ◌≡◌, ◌⊎◌,
}
use actions_runners.Runner.{Runner, has_drain}
use actions_runners.Tiers.Types.{
  Action, Input, Reason, Tier, Verb, drain, of_floor, of_sole, own, resume,
}
use actions_runners.Tiers.Groups.{floor_runners, overflow_runners, sole_runners}
use actions_runners.Tiers.Moves.{
  Move, Work, ask, floor_move, is_pending, leave, obey, obey_all, overflow_move, put_off, recent,
  standby_work, want,
}

-- The action does not drain the runner `n`.
abbrev pub Keeps : String → Action → Type 0
Keeps n a = (a.verb ≡ resume) ⊎ (str_eq n a.name ≡ false)

-- What drains of the standby loops there are is in `draining_now`.
record Known (w : Work) : Type 0 where
  each : All (λ a. (a.verb ≡ resume) ⊎ In a.name w.draining_now) w.actions

ask-Known :
    (r : Runner) (v : Verb) (tier : Tier) (why : Reason) (w : Work)
    → Known w
    → Known (want r v tier why w)
unfolding want
ask-Known r drain tier why w h = elim (Bool-cases (own r)) [
  | inl d ↦ rw d (record { each = h.each })
  | inr d ↦ rw d (record {
    each = elim (Bool-cases (is_pending drain r.name w.pending)) [
      | inl p ↦ rw p more
      | inr p ↦ rw p (
          All-append _ w.actions _ more
            (inr (append-In_right r.name w.draining_now (r.name ∷ []) (inl refl)), tt))
    ];
  })
]
  where
    more : All (λ a. (a.verb ≡ resume) ⊎ In a.name (w.draining_now ++ (r.name ∷ []))) w.actions
    more = All-of _ w.actions (λ a i. elim (All-In _ a w.actions h.each i) [
      | inl e ↦ inl e
      | inr j ↦ inr (append-In_left a.name w.draining_now _ j)
    ])
ask-Known r resume tier why w h = elim (Bool-cases (not (has_drain r))) [
  | inl d ↦ rw d (record { each = h.each })
  | inr d ↦ rw d (record {
    each = elim (Bool-cases (is_pending resume r.name w.pending)) [
      | inl p ↦ rw p h.each
      | inr p ↦ rw p (All-append _ w.actions _ h.each (inl refl, tt))
    ];
  })
]

obey-Known : (r : Runner) (m : Move) (w : Work) → Known w → Known (obey r m w)
unfolding obey
obey-Known r leave w h = h
obey-Known r (put_off why) w h = record { each = h.each }
obey-Known r (ask v tier why) w h = ask-Known r v tier why w h

obey_all-Known :
    (move : Work → Runner → Move) (rs : List Runner) (w : Work)
    → Known w
    → Known (obey_all move rs w)
unfolding obey_all
obey_all-Known move [] w h = h
obey_all-Known move (r ∷ rs) w h =
    obey_all-Known move rs (obey r (move w r) w) (obey-Known r (move w r) w h)

module _ (lower : String → String) (glob : String → String → Bool) (x : Input) where
  standby-Known : Known (standby_work lower glob x)
  unfolding standby_work
  standby-Known =
      let first : Work = record {
        pending = recent x.now x.config.retry_ms x.prev.pending;
        actions = [];
        deferred = [];
        draining_now = [];
      } in
      let move = floor_move lower glob x in
      let floors = obey_all (λ w r. move of_floor r) (floor_runners lower x) first in
      let soles = obey_all (λ w r. move of_sole r) (sole_runners lower x) floors in
      obey_all-Known (λ w r. overflow_move lower glob x r) (overflow_runners lower x) soles
        (obey_all-Known (λ w r. move of_sole r) (sole_runners lower x) floors
          (obey_all-Known (λ w r. move of_floor r) (floor_runners lower x) first
            (record { each = tt })))

  -- A runner that the step is not draining is kept by the standby loops.
  abbrev pub Knows : List String → Type 0
  Knows names = (m : String) → In m (standby_work lower glob x).draining_now → In m names

  pub kept :
      (n : String) (names : List String)
      → Knows names
      → any (str_eq n) names ≡ false
      → All (Keeps n) (standby_work lower glob x).actions
  kept n names sub h =
      let acts = (standby_work lower glob x).actions in
      All-of (Keeps n) acts (λ a i. elim (All-In _ a acts standby-Known.each i) [
        | inl e ↦ inl e
        | inr j ↦ elim (Bool-cases (str_eq n a.name)) [
          | inl e ↦ cc (h, any_of_In (str_eq n) a.name names (sub a.name j) e)
          | inr e ↦ inr e
        ]
      ])
