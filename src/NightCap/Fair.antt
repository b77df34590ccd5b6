-- ===== src/NightCap/Fair.antt =====
-- Who gets the free slots of the night cap (dashboard/lib/night-cap.js).
use mathlib.Core.Path.{subst}
use actions_runners.Prelude.{
  All, All-In, All-of, Bool, Bool-cases, In, In-filter, List, Option, Option-cases, String, [], any,
  any-append, any_mono, any-none, ap, arith, false, filter-In, find?, find?-In, find?-none, first,
  inl, inr, insert, insert-new, is_some, length, length-append, lookup, lookup-insert, none, not,
  refl, some, str_eq, str_eq_refl, suc, true, zero, ℕ, ◌&&◌, ◌+◌, ◌||◌, ◌∷◌, ◌≡◌, ◌≤◌, ◌⊎◌,
}
use actions_runners.Runner.{Runner, has_drain, is_online}
use actions_runners.NightCap.Types.{Job, Pending, is_pending, own, parkable, resume}
use actions_runners.NightCap.Slots.{Slots, candidates, choose, fits, give}
use actions_runners.NightCap.Park.{has_slot}
use actions_runners.NightCap.Decide.{
  Input, decide, ours_of, pending_of, slots_of, slotted_of, waiting_of,
}

first-none : (x y : Option Runner) → first x y ≡ none → (x ≡ none) × (y ≡ none)
first-none none y h = (refl, h)
first-none (some a) y h = cc

module _ (lower : String → String) (p : Pending) (ours : List Runner) where
  -- The runner could take the job now: it fits, may be parked, has no slot, and is online, being
  -- resumed or parked by the cap.
  abbrev pub is_free : Slots → Job → Runner → Bool
  is_free slotted q r =
      fits lower q r
      && parkable r
      && not (is_some (lookup r.name slotted))
      && (not (has_drain r) && is_online r || is_pending resume r.name p || own r)

  -- The test by which `candidates` filters.
  abbrev can_take : Slots → Job → Runner → Bool
  can_take slotted q r = fits lower q r && parkable r && not (is_some (lookup r.name slotted))

  choose-In :
      (slotted : Slots) (q : Job) {r : Runner}
      → choose lower p ours slotted q ≡ some r
      → In r (candidates lower ours slotted q)
  unfolding choose
  choose-In slotted q {r} h =
      let fit = candidates lower ours slotted q in
      ground (
        arith,
        find?-In (λ s. not (has_drain s) && is_online s) fit {a = r},
        find?-In (λ s. is_pending resume s.name p) fit {a = r},
        find?-In own fit {a = r},
      )

  none-each :
      (slotted : Slots) (q : Job) (r : Runner)
      → choose lower p ours slotted q ≡ none
      → In r ours
      → is_free slotted q r ≡ false
  unfolding choose
  none-each slotted q r h i = elim (Bool-cases (can_take slotted q r)) [
    | inl e ↦
        let fit = candidates lower ours slotted q in
        let j : In r fit = unfold candidates in filter-In (can_take slotted q) r ours i e in
        let (a, rest) = first-none (find? (λ s. not (has_drain s) && is_online s) fit) _ h in
        let (b, c) =
          first-none (find? (λ s. is_pending resume s.name p) fit) (find? own fit) rest in
        ground (
          arith,
          All-In _ r fit (find?-none (λ s. not (has_drain s) && is_online s) fit a) j,
          All-In _ r fit (find?-none (λ s. is_pending resume s.name p) fit b) j,
          All-In _ r fit (find?-none own fit c) j,
        )
    | inr e ↦ ground arith
  ]

  choose-none :
      (slotted : Slots) (q : Job)
      → choose lower p ours slotted q ≡ none
      → any (is_free slotted q) ours ≡ false
  choose-none slotted q h =
      any-none (is_free slotted q) ours (All-of _ ours (λ r i. none-each slotted q r h i))

  taken-stays :
      (slotted : Slots) (q : Job) (name key : String)
      → any (is_free slotted q) ours ≡ false
      → any (is_free (insert name key slotted) q) ours ≡ false
  taken-stays slotted q name key h =
      any_mono (is_free slotted q) (is_free (insert name key slotted) q) ours
        (λ r e. ground (arith, lookup-insert name r.name key slotted)) h

  -- What is true of a waiting job once the slots are given.
  abbrev pub Served : ℕ → Slots → Job → Type 0
  Served slots slotted q =
      (has_slot slotted q ≡ true)
      ⊎ (slots ≤ length slotted)
      ⊎ (any (is_free slotted q) ours ≡ false)

  choose-new :
      (slotted : Slots) (q : Job) {r : Runner}
      → choose lower p ours slotted q ≡ some r
      → lookup r.name slotted ≡ none
  choose-new slotted q {r} h = ground (
    arith,
    In-filter (can_take slotted q) r ours (unfold candidates in choose-In slotted q {r = r} h),
  )

  -- A new slot takes no job's slot away, and frees no runner.
  insert-Served :
      (slots : ℕ) (slotted : Slots) (name key : String) (q : Job)
      → lookup name slotted ≡ none
      → Served slots slotted q
      → Served slots (insert name key slotted) q
  insert-Served slots slotted name key q n (inl h) =
      inl (rw (insert-new name key slotted n, any-append (λ e. str_eq e.1 q.key) slotted, h))
  insert-Served slots slotted name key q n (inr (inl h)) = inr (
      inl (
        omega (
          arith,
          ap length (insert-new name key slotted n),
          length-append slotted ((name, key) ∷ []),
        )))
  insert-Served slots slotted name key q n (inr (inr h)) =
      inr (inr (taken-stays slotted q name key h))

  give-Served :
      (slots left : ℕ) (slotted : Slots) (qs : List Job) (q : Job)
      → Served slots slotted q
      → Served slots (give lower p ours left slotted qs) q
  unfolding give
  give-Served slots left slotted [] q h = h
  give-Served slots zero slotted (x ∷ qs) q h = h
  give-Served slots (suc left) slotted (x ∷ qs) q h =
      elim (Option-cases (choose lower p ours slotted x)) [
        | inl e ↦ rw (e, give) (give-Served slots (suc left) slotted qs q h)
        | inr (r, e) ↦
            rw (e, give)
              (give-Served slots left (insert r.name x.key slotted) qs q
                (insert-Served slots slotted r.name x.key q (choose-new slotted x e) h))
      ]

  full-All :
      (slots : ℕ) (slotted : Slots) (qs : List Job)
      → slots ≤ length slotted
      → All (Served slots slotted) qs
  full-All slots slotted [] h = tt
  full-All slots slotted (q ∷ qs) h = (inr (inl h), full-All slots slotted qs h)

  has_slot-insert :
      (slotted : Slots) (name : String) (q : Job)
      → lookup name slotted ≡ none
      → has_slot (insert name q.key slotted) q ≡ true
  has_slot-insert slotted name q n = ground (
    arith,
    ap (λ m. has_slot m q) (insert-new name q.key slotted n),
    any-append (λ e. str_eq e.1 q.key) slotted ((name, q.key) ∷ []),
    str_eq_refl q.key,
  )

  give-miss :
      (left : ℕ) (slotted : Slots) (q : Job) (qs : List Job)
      → choose lower p ours slotted q ≡ none
      → give lower p ours (suc left) slotted qs ≡ give lower p ours (suc left) slotted (q ∷ qs)
  unfolding give
  give-miss left slotted q qs e = rw (e, give)

  give-hit :
      (left : ℕ) (slotted : Slots) (q : Job) (qs : List Job) {r : Runner}
      → choose lower p ours slotted q ≡ some r
      → give lower p ours left (insert r.name q.key slotted) qs
        ≡ give lower p ours (suc left) slotted (q ∷ qs)
  unfolding give
  give-hit left slotted q qs e = rw (e, give)

  give-All :
      (slots left : ℕ) (slotted : Slots) (qs : List Job)
      → slots ≤ length slotted + left
      → All (Served slots (give lower p ours left slotted qs)) qs
  give-All slots left slotted [] h = tt
  give-All slots zero slotted (q ∷ qs) h =
      unfold give in full-All slots slotted (q ∷ qs) (omega arith)
  give-All slots (suc left) slotted (q ∷ qs) h =
      elim (Option-cases (choose lower p ours slotted q)) [
        | inl e ↦
            subst (λ s. All (Served slots s) (q ∷ qs)) (give-miss left slotted q qs e)
              (
                give-Served slots (suc left) slotted qs q (inr (inr (choose-none slotted q e))),
                give-All slots (suc left) slotted qs h,
              )
        | inr (r, e) ↦
            let n = choose-new slotted q e in
            let next = insert r.name q.key slotted in
            subst (λ s. All (Served slots s) (q ∷ qs)) (give-hit left slotted q qs e)
              (
                give-Served slots left next qs q (inl (has_slot-insert slotted r.name q n)),
                give-All slots left next qs (
                    omega (
                      arith,
                      ap length (insert-new r.name q.key slotted n),
                      length-append slotted ((r.name, q.key) ∷ []),
                    )),
              )
      ]

-- After a step, each waiting job has a slot, or all the free slots are given, or no runner of the
-- cap's could take the job: none that fits it, is not busy, is not drained by someone else, has no
-- slot, and is online, being resumed or parked by the cap.
pub slots_not_wasted :
    (lower : String → String) (x : Input)
    → All
        (Served lower
          (pending_of x)
          (ours_of x)
          (decide lower x).1.slots
          (decide lower x).1.slotted)
        (waiting_of lower x)
unfolding decide slotted_of
slots_not_wasted lower x =
    give-All lower (pending_of x) (ours_of x) (slots_of x) (slots_of x) [] (waiting_of lower x)
      (omega arith)
