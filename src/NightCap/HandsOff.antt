-- ===== src/NightCap/HandsOff.antt =====
-- Which runners the night cap acts on (dashboard/lib/night-cap.js).
use actions_runners.Prelude.{
  All, All-append, Bool, Bool-cases, In, In-filter, List, Option-cases, String, [], arith, false,
  if◌then◌else◌, inl, inr, lookup, none, refl, true, truthy, ℕ, ◌<◌, ◌∷◌, ◌≡◌, ◌⊎◌,
}
use actions_runners.Runner.{Runner, is_busy}
use actions_runners.NightCap.Types.{
  Action, Config, Reason, Verb, Work, action_of, drain, is_ours, others, over_cap, own,
  parked_by_cap, resume, slot_free, want,
}
use actions_runners.NightCap.Slots.{Slots}
use actions_runners.NightCap.Park.{park, park_one, park_unslotted, release}
use actions_runners.NightCap.Decide.{
  Input, busy_of, decide, is_capping, issued_of, ours_of, release_reason, slotted_of, work_of,
}

-- Why a step may send `verb` to a runner.
abbrev pub Allowed : Input → Verb → Runner → Type 0
Allowed x drain r =
    (is_capping x ≡ true)
    × (r.drain_state ≡ none)
    × ((is_busy r ≡ false) ⊎ (x.config.max_busy < busy_of x))
Allowed x resume r = own r ≡ true

module _ (P : Action → Type 0) where
  want-All :
      (r : Runner) (v : Verb) (why : Reason) (w : Work)
      → P (action_of r v why)
      → All P w.1
      → All P (want r v why w).1
  unfolding want
  want-All r v why (p, acts) k h =
      ground (arith, All-append P acts (action_of r v why ∷ []) h (k, tt))

  release-All :
      (why : Reason) (rs : List Runner) (w : Work)
      → ((r : Runner) → In r rs → own r ≡ true → P (action_of r resume why))
      → All P w.1
      → All P (release why rs w).1
  unfolding release
  release-All why [] w k h = h
  release-All why (r ∷ rs) w k h =
      release-All why rs (if own r then want r resume why w else w) (λ s i. k s (inr i))
        (elim (Bool-cases (own r)) [
          | inl e ↦ rw e (want-All r resume why w (k r (inl refl) e) h)
          | inr e ↦ rw e h
        ])

  park_unslotted-All :
      (c : Config) (busy : ℕ) (r : Runner) (w : Work)
      → others r ≡ false
      → ((why : Reason)
          → r.drain_state ≡ none
          → (is_busy r ≡ false) ⊎ (c.max_busy < busy)
          → P (action_of r drain why))
      → All P w.1
      → All P (park_unslotted c busy r w).1
  unfolding park_unslotted own others
  park_unslotted-All c busy r (p, acts) o k h = ground (
    arith,
    want-All r drain (over_cap busy c.max_busy) (p, acts),
    want-All r drain (parked_by_cap c.max_busy) (p, acts),
    k (over_cap busy c.max_busy),
    k (parked_by_cap c.max_busy),
  )

  -- What the last loop may send to a runner.
  abbrev Sends : Config → ℕ → Runner → Type 0
  Sends c busy r =
      ((why : Reason)
        → r.drain_state ≡ none
        → (is_busy r ≡ false) ⊎ (c.max_busy < busy)
        → P (action_of r drain why))
      × ((why : Reason) → own r ≡ true → P (action_of r resume why))

  park_one-All :
      (c : Config) (busy : ℕ) (slotted : Slots) (r : Runner) (w : Work)
      → Sends c busy r
      → All P w.1
      → All P (park_one c busy slotted r w).1
  unfolding park_one
  park_one-All c busy slotted r w k h = elim (Bool-cases (others r)) [
    | inl e ↦ rw e h
    | inr e ↦ rw e (elim (Option-cases (lookup r.name slotted)) [
      | inl n ↦ rw (n, park_one) (park_unslotted-All c busy r w e k.0 h)
      | inr (key, n) ↦
          rw (n, park_one)
            (elim (Bool-cases (own r)) [
              | inl o ↦ rw o (want-All r resume (slot_free key) w (k.1 (slot_free key) o) h)
              | inr o ↦ rw o h
            ])
    ])
  ]

  park-All :
      (c : Config) (busy : ℕ) (slotted : Slots) (rs : List Runner) (w : Work)
      → ((r : Runner) → In r rs → Sends c busy r)
      → All P w.1
      → All P (park c busy slotted rs w).1
  unfolding park
  park-All c busy slotted [] w k h = h
  park-All c busy slotted (r ∷ rs) w k h =
      park-All c busy slotted rs (park_one c busy slotted r w) (λ s i. k s (inr i))
        (park_one-All c busy slotted r w (k r (inl refl)) h)

-- The action is for a registered runner of this host, and allowed for it.
abbrev pub Justified : Input → Action → Type 0
Justified x a =
    (r : Runner) × In r x.runners
    × (r.name ≡ a.name)
    × (r.ephemeral ≡ false)
    × (truthy r.dir_name ≡ true)
    × Allowed x a.verb r

justify :
    (x : Input) (r : Runner) (v : Verb) (why : Reason)
    → In r (ours_of x)
    → Allowed x v r
    → Justified x (action_of r v why)
justify x r v why i k =
    let (j, o) = In-filter is_ours r x.runners i in (r, j, refl, ground arith, ground arith, k)

work-Justified : (lower : String → String) (x : Input) → All (Justified x) (work_of lower x).1
unfolding work_of
work-Justified lower x = elim (Bool-cases (is_capping x)) [
  | inl e ↦ rw e (
      park-All (Justified x) x.config (busy_of x) (slotted_of lower x) (ours_of x) _
        (λ r i.
          ((λ why d b. justify x r drain why i (e, d, b)), (λ why o. justify x r resume why i o)))
        tt)
  | inr e ↦ rw e (
      release-All (Justified x) _ (ours_of x) _ (λ r i o. justify x r resume (release_reason x) i o)
        tt)
]

sent-All :
    (P : Action → Type 0) (is_off : Bool) (acts : List Action)
    → All P acts
    → All (λ a. (is_off ≡ false) × P a) (if is_off then [] else acts)
sent-All P true acts h = tt
sent-All P false [] h = tt
sent-All P false (a ∷ acts) h = ((refl, h.0), sent-All P false acts h.1)

-- Every action that a step sends is sent with the host switched on, for a runner of the host that
-- is not ephemeral and has a directory. A drain is sent only while the cap holds, only to a runner
-- with no marker, and to a busy runner only if more than `max_busy` are busy. A resume is sent only
-- to a runner whose marker the cap wrote.
pub decide_hands_off :
    (lower : String → String) (x : Input)
    → All (λ a. (x.host_off ≡ false) × Justified x a) (decide lower x).1.actions
unfolding decide issued_of
decide_hands_off lower x =
    sent-All (Justified x) x.host_off (work_of lower x).1 (work-Justified lower x)
