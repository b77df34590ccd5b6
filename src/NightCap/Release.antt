-- ===== src/NightCap/Release.antt =====
-- How the night cap gives its runners back (dashboard/lib/night-cap.js).
use mathlib.Core.Path.{subst}
use actions_runners.Prelude.{
  All, All-In, All-map, Distinct, In, List, String, [], arith, false, if◌then◌else◌, inl, inr,
  length, ltb, map, map-In, refl, str_eq, str_eq_refl, str_eq_sym, sym, true, ℕ, ◌&&◌, ◌||◌, ◌∙◌,
  ◌∷◌, ◌≡◌, ◌≢◌,
}
use actions_runners.Runner.{Runner}
use actions_runners.NightCap.Types.{
  Action, Mode, Pending, Reason, Work, action_of, enforce, is_enforce, is_off, is_pending, observe,
  off, own, resume, sent_verb, want,
}
use actions_runners.NightCap.Park.{release}
use actions_runners.NightCap.Decide.{
  Input, applied_of, decide, is_capping, issued_of, note_sent, ours_of, pending_of, release_reason,
  work_of,
}
use actions_runners.NightCap.Sent.{
  Spares, note_sent-Spares, note_sent-snoc, noted, want-Spares, want-other,
}

module _ (now : ℕ) (n : String) (why : Reason) where
  step-other :
      (r : Runner) (w : Work)
      → str_eq r.name n ≡ false
      → noted now n (if own r then want r resume why w else w) ≡ noted now n w
  step-other r w d = ground (arith, want-other now n r resume why w d)

  step-Spares :
      (r : Runner) (w : Work)
      → str_eq r.name n ≡ false
      → Spares n w.1
      → Spares n (if own r then want r resume why w else w).1
  step-Spares r w d h = ground (arith, want-Spares n r resume why w d h)

  release-other :
      (rs : List Runner) (w : Work)
      → All (λ r. str_eq r.name n ≡ false) rs
      → noted now n (release why rs w) ≡ noted now n w
  unfolding release
  release-other [] w d = refl
  release-other (r ∷ rs) w d =
      release-other rs (if own r then want r resume why w else w) d.1 ∙ step-other r w d.0

-- The round of a parked runner sends it a resume, or finds one on its way.
want-resume :
    (now : ℕ) (why : Reason) (r : Runner) (w : Work)
    → own r ≡ true
    → Spares r.name w.1
    → sent_verb resume (noted now r.name (want r resume why w)) ≡ true
unfolding want own is_pending
want-resume now why r (p, acts) o h = ground (
  arith,
  str_eq_refl r.name,
  note_sent-snoc now r.name acts (action_of r resume why) p,
  note_sent-Spares now r.name acts p h,
)

own-step :
    (now : ℕ) (why : Reason) (r : Runner) (w : Work)
    → own r ≡ true
    → Spares r.name w.1
    → sent_verb resume (noted now r.name (if own r then want r resume why w else w)) ≡ true
own-step now why r w o h = rw o (want-resume now why r w o h)

release-resumes :
    (now : ℕ) (why : Reason) (r : Runner) (rs : List Runner) (w : Work)
    → In r rs
    → own r ≡ true
    → Distinct (map (λ s. s.name) rs)
    → Spares r.name w.1
    → sent_verb resume (noted now r.name (release why rs w)) ≡ true
unfolding release
release-resumes now why r [] w i o d h = elim i [ ]
release-resumes now why r (x ∷ rs) w (inl e) o d h =
    let rest = All-map (λ (s : Runner). s.name) (λ k. str_eq k x.name ≡ false) rs d.0 in
    let rest' = subst (λ (y : Runner). All (λ s. str_eq s.name y.name ≡ false) rs) (sym e) rest in
    rw (release-other now r.name why rs (if own x then want x resume why w else w) rest') (
      subst
        (λ (y : Runner).
          sent_verb resume (noted now r.name (if own y then want y resume why w else w)) ≡ true)
        e (own-step now why r w o h))
release-resumes now why r (x ∷ rs) w (inr i) o d h =
    let differ = str_eq_sym r.name x.name (
      All-In (λ k. str_eq k x.name ≡ false) r.name _ d.0
        (map-In (λ (s : Runner). s.name) r rs i)) in
    release-resumes now why r rs (if own x then want x resume why w else w) i o d.1
      (step-Spares now r.name why x w differ h)

-- With nothing to send there is nothing to note.
applied-noted :
    (now : ℕ) (mode : Mode) (acts : List Action) (p : Pending)
    → mode ≢ observe
    → (if is_enforce mode || (is_off mode && ltb 0 (length acts)) then note_sent now acts p else p)
      ≡ note_sent now acts p
unfolding note_sent
applied-noted now off [] p h = refl
applied-noted now off (a ∷ acts) p h = ground arith
applied-noted now observe acts p h = absurd (h refl)
applied-noted now enforce acts p h = refl

-- Outside the window, or with the cap off, on a host that is on and where no two of the cap's
-- runners have one name: after a step that does not only observe, each of them that the cap parked
-- has a resume on its way.
pub decide_releases :
    (lower : String → String) (x : Input) (r : Runner)
    → is_capping x ≡ false
    → x.config.mode ≢ observe
    → x.host_off ≡ false
    → Distinct (map (λ s. s.name) (ours_of x))
    → In r (ours_of x)
    → own r ≡ true
    → is_pending resume r.name (decide lower x).0 ≡ true
unfolding decide applied_of issued_of work_of is_pending
decide_releases lower x r k m h d i o =
    simp
      (
        h,
        k,
        applied-noted x.now x.config.mode
            (release (release_reason x) (ours_of x) (pending_of x, [])).1
            (release (release_reason x) (ours_of x) (pending_of x, [])).0 m,
      )
      (release-resumes x.now (release_reason x) r (ours_of x) (pending_of x, []) i o d tt)
