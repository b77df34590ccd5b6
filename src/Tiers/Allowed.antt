-- ===== src/Tiers/Allowed.antt =====
-- What the tiers controller (dashboard/lib/tiers.js) may ask of one runner.
-- What a standby host or the primary must be for a runner of it to be drained, and for a resume.
use mathlib.Core.Path.{subst}
use actions_runners.Prelude.{
  Bool, Bool-cases, In, List, Option, Option-cases, String, ap, arith, false, find?, find?-In,
  if◌then◌else◌, inl, inr, is_some, is_text, none, not, or_else, refl, some, true, ℕ, ◌&&◌, ◌||◌,
  ◌≡◌, ◌⊎◌,
}
use actions_runners.Runner.{Runner, has_drain, is_busy, is_online}
use actions_runners.Tiers.Types.{
  Gate, Input, Lane, Reason, Tier, Verb, admission, drain, drain_owner, is_off, lane, of_floor,
  of_overflow, of_primary, of_sole, operator_drained, own, resume, switched_off,
}
use actions_runners.Tiers.Lanes.{
  at_cap, drain_lane, lanes_of, primary_blocked, primary_runners, shed_of,
}
use actions_runners.Tiers.Groups.{floor_runners, overflow_runners, sole_runners}
use actions_runners.Tiers.Moves.{
  Move, Work, ask, covering, floor_move, host_blocked, is_done, leave, overflow_move, put_off,
  resume_if_own, resume_reason, want_online,
}
use actions_runners.Tiers.Primary.{
  is_admission, online_move, own_move, park, pinned, primary_move, self_drain,
}

pub no_drain : (r : Runner) → has_drain r ≡ false → r.drain_state ≡ none
no_drain r h = elim (Option-cases r.drain_state) [ inl n ↦ n | inr (d, n) ↦ cc (rw n at h) ]

unmarked : (r : Runner) → operator_drained r ≡ false → own r ≡ false → r.drain_state ≡ none
unfolding own operator_drained
unmarked r a b = elim (Option-cases r.drain_state) [
  | inl n ↦ n
  | inr (d, n) ↦ cc (marked r.drain_by (rw n at a) (rw n at b))
]
  where
    marked :
        (o : Option String)
        → not (is_text o drain_owner) ≡ false
        → is_text o drain_owner ≡ false
        → true ≡ false
    marked o p q = ground arith

and_left : (a b : Bool) → (a && b) ≡ true → a ≡ true
and_left a b h = ground arith

and_right : (a b : Bool) → (a && b) ≡ true → b ≡ true
and_right a b h = ground arith

or_two : (a b : Bool) → (a || b) ≡ false → (a ≡ false) × (b ≡ false)
or_two a b h = ground arith

or_three : (a b d : Bool) → (a || b || d) ≡ false → (a ≡ false) × (b ≡ false) × (d ≡ false)
or_three a b d h = ground arith

module _ (lower : String → String) (glob : String → String → Bool) (x : Input) where
  -- Why a runner may be drained, by its tier.
  abbrev pub DrainFor : Tier → Runner → Type 0
  DrainFor of_floor r =
      In r (floor_runners lower x) × (is_some (host_blocked lower glob x r) ≡ true)
  DrainFor of_sole r = In r (sole_runners lower x) × (is_some (host_blocked lower glob x r) ≡ true)
  DrainFor of_overflow r =
      In r (overflow_runners lower x)
      × (want_online lower glob x r ≡ false)
      × (covering lower glob x r ≡ false)
  DrainFor of_primary r =
      In r (primary_runners x)
      × (is_online r ≡ true)
      × (((primary_blocked x ≡ true))
          ⊎ ((is_busy r ≡ false)
              × ((k : Lane) × ((shed_of glob x k).on ≡ true) × (at_cap glob x k ≡ true))))

  -- A drain is for a runner with no marker, while the controller is not off; a resume for a runner
  -- that the controller drained.
  abbrev pub Allowed : Verb → Tier → Runner → Type 0
  Allowed drain tier r = (r.drain_state ≡ none) × (is_off x.config.mode ≡ false) × DrainFor tier r
  Allowed resume tier r = own r ≡ true

  abbrev pub MoveAllowed : Runner → Move → Type 0
  MoveAllowed r leave = Unit {0}
  MoveAllowed r (put_off why) = Unit {0}
  MoveAllowed r (ask v tier why) = (is_done v r ≡ true) ⊎ Allowed v tier r

  pub floor_allowed :
      (tier : Tier) (r : Runner)
      → (is_some (host_blocked lower glob x r) ≡ true → DrainFor tier r)
      → MoveAllowed r (floor_move lower glob x tier r)
  unfolding floor_move
  floor_allowed tier r k = elim (Bool-cases (operator_drained r)) [
    | inl o ↦ rw o tt
    | inr o ↦ elim (Option-cases (host_blocked lower glob x r)) [
      | inl n ↦ rw (o, n) (resumed tier r)
      | inr (b, n) ↦ elim (Bool-cases (is_off x.config.mode)) [
        | inl e ↦ rw (o, n, e) (resumed tier r)
        | inr e ↦
            rw (o, n, e)
              (elim (Bool-cases (own r)) [
                | inl w ↦ inl w
                | inr w ↦ inr (unmarked r o w, e, k (rw n refl))
              ])
      ]
    ]
  ]
    where
      resumed : (tier : Tier) (r : Runner) → MoveAllowed r (resume_if_own lower glob x tier r)
      resumed tier r = elim (Bool-cases (own r)) [ inl w ↦ rw w (inr w) | inr w ↦ rw w tt ]

  pub overflow_allowed :
      (r : Runner) → In r (overflow_runners lower x) → MoveAllowed r (overflow_move lower glob x r)
  unfolding overflow_move
  overflow_allowed r i = elim (Bool-cases (operator_drained r)) [
    | inl o ↦ rw o tt
    | inr o ↦ elim (Bool-cases (is_off x.config.mode)) [
      | inl e ↦ rw (o, e) (resumed switched_off)
      | inr e ↦ elim (Bool-cases (want_online lower glob x r)) [
        | inl v ↦ rw (o, e, v) (resumed (resume_reason lower glob x r))
        | inr v ↦ elim (Bool-cases (has_drain r)) [
          | inl d ↦ rw (o, e, v, d) tt
          | inr d ↦ elim (Bool-cases (covering lower glob x r)) [
            | inl c ↦ rw (o, e, v, d, c) tt
            | inr c ↦ rw (o, e, v, d, c) (inr (no_drain r d, e, (i, v, c)))
          ]
        ]
      ]
    ]
  ]
    where
      resumed : (why : Reason) → MoveAllowed r (if own r then ask resume of_overflow why else leave)
      resumed why = elim (Bool-cases (own r)) [ inl w ↦ rw w (inr w) | inr w ↦ rw w tt ]

  pub own_allowed :
      (slotted : List (String × ℕ)) (twin : Option Runner) (r : Runner)
      → own r ≡ true
      → MoveAllowed r (own_move lower glob x slotted twin r)
  unfolding own_move
  own_allowed slotted twin r w = ground arith

  gate_why :
      (r : Runner) (gate : Gate)
      → drain_lane glob x r ≡ some gate
      → (is_busy r && not (is_admission lower glob x gate)) ≡ false
      → (primary_blocked x ≡ true)
        ⊎ ((is_busy r ≡ false)
            × ((k : Lane) × ((shed_of glob x k).on ≡ true) × (at_cap glob x k ≡ true)))
  unfolding drain_lane
  gate_why r gate g b = elim (Bool-cases (primary_blocked x)) [
    | inl e ↦ inl e
    | inr e ↦
        elim (Option-cases
          (find? (λ k. (shed_of glob x k).on && at_cap glob x k) (lanes_of glob x r))) [
            | inl n ↦ absurd (cc (rw (e, n, drain_lane) at g))
            | inr (k, n) ↦
                let h : some (lane k) ≡ some gate = rw (e, n, drain_lane) at g in
                let (j, t) =
                  find?-In (λ k. (shed_of glob x k).on && at_cap glob x k) (lanes_of glob x r) n in
                inr (
                  idle k h b,
                  (
                    k,
                    and_left (shed_of glob x k).on (at_cap glob x k) t,
                    and_right (shed_of glob x k).on (at_cap glob x k) t,
                  ),
                )
          ]
  ]
    where
      idle :
          (k : Lane)
          → some (lane k) ≡ some gate
          → (is_busy r && not (is_admission lower glob x gate)) ≡ false
          → is_busy r ≡ false
      idle k h b =
          subst (λ g. (is_busy r && not (is_admission lower glob x g)) ≡ false → is_busy r ≡ false)
            (ap (λ o. or_else o admission) h) (λ q. ground arith) b

  shed_why :
      (r : Runner) (gate : Gate)
      → In r (primary_runners x)
      → drain_lane glob x r ≡ some gate
      → (not (self_drain lower glob x)
          || (not (park lower glob x) && pinned lower glob x r)
          || has_drain r)
        ≡ false
      → ((is_busy r && not (is_admission lower glob x gate)) || not (is_online r)) ≡ false
      → Allowed drain of_primary r
  shed_why r gate i g e f =
      let (a, b, d) =
        or_three (not (self_drain lower glob x)) (not (park lower glob x) && pinned lower glob x r)
          (has_drain r) e in
      let (m, n) =
        or_two (is_busy r && not (is_admission lower glob x gate)) (not (is_online r)) f in
      (no_drain r d, ground arith, (i, ground arith, gate_why r gate g m))

  gate_allowed :
      (twin : Option Runner) (r : Runner) (gate : Gate)
      → In r (primary_runners x)
      → drain_lane glob x r ≡ some gate
      → MoveAllowed r (online_move lower glob x twin r gate)
  unfolding online_move
  gate_allowed twin r gate i g =
      elim (Bool-cases (
        not (self_drain lower glob x)
        || (not (park lower glob x) && pinned lower glob x r)
        || has_drain r)) [
          | inl e ↦ rw e tt
          | inr e ↦
              elim (Bool-cases
                ((is_busy r && not (is_admission lower glob x gate)) || not (is_online r))) [
                  | inl f ↦ rw (e, f) tt
                  | inr f ↦
                      let why = shed_why r gate i g e f in
                      rw (e, f)
                        (elim (Bool-cases (is_some twin)) [
                          | inl t ↦ rw t (inr why)
                          | inr t ↦ rw t (elim (Bool-cases (park lower glob x)) [
                            | inl p ↦ rw p (inr why)
                            | inr p ↦ rw p tt
                          ])
                        ])
                ]
        ]

  pub primary_allowed :
      (slotted : List (String × ℕ)) (w : Work) (r : Runner)
      → In r (primary_runners x)
      → MoveAllowed r (primary_move lower glob x slotted w r)
  unfolding primary_move
  primary_allowed slotted w r i = elim (Bool-cases (operator_drained r)) [
    | inl o ↦ rw o tt
    | inr o ↦ elim (Bool-cases (own r)) [
      | inl e ↦ rw (o, e) (own_allowed slotted _ r e)
      | inr e ↦ elim (Option-cases (drain_lane glob x r)) [
        | inl n ↦ rw (o, e, n) tt
        | inr (gate, n) ↦ rw (o, e, n) (gate_allowed _ r gate i n)
      ]
    ]
  ]
