-- ===== src/NightCap/Sent.antt =====
-- What a step of the night cap remembers as sent to one runner (dashboard/lib/night-cap.js).
use actions_runners.Prelude.{
  All, All-append, Bool-cases, List, Option, Option-cases, String, [], arith, erase, false,
  if◌then◌else◌, inl, inr, insert, lookup, lookup-erase, lookup-insert, refl, some, str_eq, ℕ, ◌++◌,
  ◌∙◌, ◌∷◌, ◌≡◌,
}
use actions_runners.Runner.{Runner}
use actions_runners.NightCap.Types.{
  Action, Config, Pending, Reason, Sent, Verb, Work, action_of, drain, others, over_cap, own,
  parked_by_cap, resume, slot_free, want,
}
use actions_runners.NightCap.Slots.{Slots}
use actions_runners.NightCap.Park.{park, park_one, park_unslotted}
use actions_runners.NightCap.Decide.{note_sent}

-- No action of the list is for the runner `n`.
abbrev pub Spares : String → List Action → Type 0
Spares n acts = All (λ a. str_eq a.name n ≡ false) acts

-- The entry of `n`, once the actions of the work are noted.
abbrev pub noted : ℕ → String → Work → Option Sent
noted now n w = lookup n (note_sent now w.1 w.0)

pub note_sent-congr :
    (now : ℕ) (n : String) (acts : List Action) (p q : Pending)
    → lookup n p ≡ lookup n q
    → lookup n (note_sent now acts p) ≡ lookup n (note_sent now acts q)
unfolding note_sent
note_sent-congr now n [] p q e = e
note_sent-congr now n (a ∷ acts) p q e = note_sent-congr now n acts _ _ (
    rw (
      lookup-insert a.name n (record { verb = a.verb; at = now }) p,
      lookup-insert a.name n (record { verb = a.verb; at = now }) q,
      e,
    ))

pub note_sent-Spares :
    (now : ℕ) (n : String) (acts : List Action) (p : Pending)
    → Spares n acts
    → lookup n (note_sent now acts p) ≡ lookup n p
unfolding note_sent
note_sent-Spares now n [] p h = refl
note_sent-Spares now n (a ∷ acts) p h =
    note_sent-Spares now n acts _ h.1
    ∙ rw (lookup-insert a.name n (record { verb = a.verb; at = now }) p, h.0)

pub note_sent-snoc :
    (now : ℕ) (n : String) (acts : List Action) (a : Action) (p : Pending)
    → lookup n (note_sent now (acts ++ (a ∷ [])) p) ≡ (
        if str_eq a.name n
        then some (record { verb = a.verb; at = now })
        else lookup n (note_sent now acts p))
unfolding note_sent
note_sent-snoc now n [] a p = lookup-insert a.name n (record { verb = a.verb; at = now }) p
note_sent-snoc now n (b ∷ acts) a p =
    note_sent-snoc now n acts a (insert b.name (record { verb = b.verb; at = now }) p)

pub erase-other :
    (k n : String) (p : Pending) → str_eq k n ≡ false → lookup n (erase k p) ≡ lookup n p
erase-other k n p e = rw (lookup-erase k n p, e)

-- A `want` for another runner leaves `n` alone.
pub want-other :
    (now : ℕ) (n : String) (r : Runner) (v : Verb) (why : Reason) (w : Work)
    → str_eq r.name n ≡ false
    → noted now n (want r v why w) ≡ noted now n w
unfolding want
want-other now n r v why (p, acts) e = ground (
  arith,
  note_sent-congr now n acts (erase r.name p) p (erase-other r.name n p e),
  note_sent-snoc now n acts (action_of r v why) p,
)

pub want-Spares :
    (n : String) (r : Runner) (v : Verb) (why : Reason) (w : Work)
    → str_eq r.name n ≡ false
    → Spares n w.1
    → Spares n (want r v why w).1
unfolding want
want-Spares n r v why (p, acts) e h =
    ground (arith, All-append _ acts (action_of r v why ∷ []) h (e, tt))

-- A round for another runner leaves `n` alone.
module _ (now : ℕ) (n : String) (c : Config) (busy : ℕ) (slotted : Slots) (r : Runner)
    (differ : str_eq r.name n ≡ false) where
  unslotted-other : (w : Work) → noted now n (park_unslotted c busy r w) ≡ noted now n w
  unfolding park_unslotted
  unslotted-other (p, acts) = ground (
    arith,
    want-other now n r drain (over_cap busy c.max_busy) (p, acts) differ,
    want-other now n r drain (parked_by_cap c.max_busy) (p, acts) differ,
    note_sent-congr now n acts (erase r.name p) p (erase-other r.name n p differ),
  )

  unslotted-Spares : (w : Work) → Spares n w.1 → Spares n (park_unslotted c busy r w).1
  unfolding park_unslotted
  unslotted-Spares (p, acts) h = ground (
    arith,
    want-Spares n r drain (over_cap busy c.max_busy) (p, acts) differ h,
    want-Spares n r drain (parked_by_cap c.max_busy) (p, acts) differ h,
  )

  pub park_one-other : (w : Work) → noted now n (park_one c busy slotted r w) ≡ noted now n w
  unfolding park_one
  park_one-other w = elim (Bool-cases (others r)) [
    | inl e ↦ rw e
    | inr e ↦ rw e (elim (Option-cases (lookup r.name slotted)) [
      | inl m ↦ rw (m, park_one) (unslotted-other w)
      | inr (key, m) ↦
          rw (m, park_one)
            (elim (Bool-cases (own r)) [
              | inl o ↦ rw o (want-other now n r resume (slot_free key) w differ)
              | inr o ↦ rw o
            ])
    ])
  ]

  pub park_one-Spares : (w : Work) → Spares n w.1 → Spares n (park_one c busy slotted r w).1
  unfolding park_one
  park_one-Spares w h = elim (Bool-cases (others r)) [
    | inl e ↦ rw e h
    | inr e ↦ rw e (elim (Option-cases (lookup r.name slotted)) [
      | inl m ↦ rw (m, park_one) (unslotted-Spares w h)
      | inr (key, m) ↦
          rw (m, park_one)
            (elim (Bool-cases (own r)) [
              | inl o ↦ rw o (want-Spares n r resume (slot_free key) w differ h)
              | inr o ↦ rw o h
            ])
    ])
  ]

module _ (now : ℕ) (n : String) (c : Config) (busy : ℕ) (slotted : Slots) where
  pub park-other :
      (rs : List Runner) (w : Work)
      → All (λ r. str_eq r.name n ≡ false) rs
      → noted now n (park c busy slotted rs w) ≡ noted now n w
  unfolding park
  park-other [] w d = refl
  park-other (r ∷ rs) w d =
      park-other rs (park_one c busy slotted r w) d.1 ∙ park_one-other now n c busy slotted r d.0 w
