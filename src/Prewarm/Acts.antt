-- ===== src/Prewarm/Acts.antt =====
-- When planPrewarm (dashboard/lib/prewarm.js) must add a runner.
use mathlib.Core.Path.{subst}
use actions_runners.Prelude.{
  Bool, Bool-cases, In, List, Option-cases, [], ap, arith, false, filter, filter-In, find?,
  if◌then◌else◌, inl, inr, is_nil, leb, length, length-sort, ltb, not, refl, some, sort, str_eq,
  sym, true, ℕ, ◌++◌, ◌+◌, ◌<◌, ◌==◌, ◌||◌, ◌∙◌, ◌∷◌, ◌≡◌, ◌≢◌, ◌≤◌,
}
use actions_runners.Runner.{Runner, has_drain, is_busy}
use actions_runners.Prewarm.Types.{
  Candidate, Input, Plan, Prediction, RepoPeak, act, disabled, gate_failed, stay,
}
use actions_runners.Prewarm.Plan.{
  Judged, Scan, before, blocked, candidate, candidate_of, choose, clone_source, confidence_meets,
  gate_reasons, judge, judge_source, last_of, note, passes, plan_prewarm, predict, repo_loop,
  repo_runners, scan, skipped,
}
use actions_runners.Prewarm.Sound.{IsNear, IsShort, have}

-- The repository's name is not empty, and it has a runner to copy.
abbrev pub HasCopy : Input → RepoPeak → Type 0
HasCopy x q =
    (str_eq q.repo "" ≡ false)
    × ((r : Runner) × In r x.runners × (str_eq r.repo q.repo ≡ true) × (has_drain r ≡ false))

ltb-false : (m n : ℕ) → n ≤ m → ltb m n ≡ false
ltb-false m n h = ground arith

leb-false : (m n : ℕ) → n < m → leb m n ≡ false
leb-false m n h = ground arith

hit : (rs : List Runner) (r : Runner) → In r rs → (s : Runner) × (find? (λ r. true) rs ≡ some s)
hit (s ∷ rs) r i = (s, refl)
hit [] r i = elim i [ ]

source_exists :
    (x : Input) (q : RepoPeak)
    → HasCopy x q
    → (s : Runner) × (clone_source (repo_runners x.runners q.repo) ≡ some s)
unfolding clone_source
source_exists x q (n, (r, i, e, d)) =
    let pool = filter (λ r. not (has_drain r)) (repo_runners x.runners q.repo) in
    let j : In r pool =
      filter-In (λ r. not (has_drain r)) r (repo_runners x.runners q.repo)
        (filter-In (λ r. str_eq r.repo q.repo) r x.runners i e) (negated (has_drain r) d) in
    let (s, k) = hit pool r j in
    elim (Option-cases (find? (λ r. not (is_busy r)) pool)) [
      | inl m ↦ (s, rw (m, k) refl)
      | inr (t, m) ↦ (t, rw m refl)
    ]
  where
    negated : (b : Bool) → b ≡ false → not b ≡ true
    negated b h = ground arith

judge_candidate :
    (x : Input) (p : Prediction) (q : RepoPeak)
    → IsShort x q
    → HasCopy x q
    → (c : Candidate) × (judge x p q ≡ candidate c)
unfolding judge judge_source
judge_candidate x p q (a, b, w, l) h =
    let (s, e) = source_exists x q h in
    (
      candidate_of x p q (have x q) s,
      rw
          (
            nonzero (str_eq q.repo "") q.expected_peak (have x q) h.0 a,
            leb-false q.expected_peak (have x q) a,
            leb-false x.cap (have x q) b,
            e,
            w,
            ltb-false x.now (last_of x q.repo + x.cooldown_ms) l,
          )
          refl,
    )
  where
    nonzero : (b : Bool) (m n : ℕ) → b ≡ false → n < m → (b || m == 0) ≡ false
    nonzero b m n e h = ground arith

-- There is a candidate.
abbrev Some : Scan → Type 0
Some s = is_nil s.candidates ≡ false

append_some : (xs : List Candidate) (c : Candidate) → is_nil (xs ++ (c ∷ [])) ≡ false
append_some [] c = refl
append_some (x ∷ xs) c = refl

note-Some : (j : Judged) (s : Scan) → Some s → Some (note j s)
note-Some skipped s h = h
note-Some (blocked b) s h = h
note-Some (candidate c) s h = append_some s.candidates c

repo_loop-Some :
    (x : Input) (p : Prediction) (qs : List RepoPeak) (s : Scan)
    → Some s
    → Some (repo_loop x p qs s)
unfolding repo_loop
repo_loop-Some x p [] s h = h
repo_loop-Some x p (q ∷ qs) s h = repo_loop-Some x p qs _ (note-Some (judge x p q) s h)

predict-Some : (x : Input) (p : Prediction) (s : Scan) → Some s → Some (predict x p s)
unfolding predict
predict-Some x p s h = elim (Bool-cases (not (confidence_meets p.confidence x.min_confidence))) [
  | inl e ↦ rw e h
  | inr e ↦ elim (Bool-cases (leb p.window_start x.now)) [
    | inl f ↦ rw (e, f) h
    | inr f ↦ elim (Bool-cases (ltb (x.now + x.lead_ms) p.window_start)) [
      | inl g ↦ rw (e, f, g) h
      | inr g ↦ rw (e, f, g) (repo_loop-Some x p p.repos s h)
    ]
  ]
]

scan-Some : (x : Input) (ps : List Prediction) (s : Scan) → Some s → Some (scan x ps s)
unfolding scan
scan-Some x [] s h = h
scan-Some x (p ∷ ps) s h = scan-Some x ps (predict x p s) (predict-Some x p s h)

repo_loop_finds :
    (x : Input) (p : Prediction) (qs : List RepoPeak) (q : RepoPeak) (s : Scan)
    → In q qs
    → IsShort x q
    → HasCopy x q
    → Some (repo_loop x p qs s)
unfolding repo_loop
repo_loop_finds x p [] q s i a b = elim i [ ]
repo_loop_finds x p (r ∷ qs) q s (inr i) a b = repo_loop_finds x p qs q (note (judge x p r) s) i a b
repo_loop_finds x p (r ∷ qs) q s (inl e) a b =
    let (c, k) = judge_candidate x p q a b in
    let k2 : judge x p r ≡ candidate c = ap (judge x p) (sym e) ∙ k in
    repo_loop-Some x p qs (note (judge x p r) s) (rw k2 (append_some s.candidates c))

predict_finds :
    (x : Input) (p : Prediction) (q : RepoPeak) (s : Scan)
    → IsNear x p
    → In q p.repos
    → IsShort x q
    → HasCopy x q
    → Some (predict x p s)
unfolding predict
predict_finds x p q s (m, a, b) i h k =
    rw (m, leb-false p.window_start x.now a, ltb-false (x.now + x.lead_ms) p.window_start b)
      (repo_loop_finds x p p.repos q s i h k)

scan_finds :
    (x : Input) (ps : List Prediction) (p : Prediction) (q : RepoPeak) (s : Scan)
    → In p ps
    → IsNear x p
    → In q p.repos
    → IsShort x q
    → HasCopy x q
    → Some (scan x ps s)
unfolding scan
scan_finds x [] p q s i n j h k = elim i [ ]
scan_finds x (r ∷ ps) p q s (inr i) n j h k = scan_finds x ps p q (predict x r s) i n j h k
scan_finds x (r ∷ ps) p q s (inl e) n j h k =
    scan-Some x ps (predict x r s)
      (subst (λ t. Some (predict x t s)) e (predict_finds x p q s n j h k))

chosen :
    (s : Scan) (cs : List Candidate)
    → length cs ≢ 0
    → (c : Candidate) × (choose s cs ≡ act c.source.name c.repo c.deficit c)
unfolding choose
chosen s [] h = absurd (h refl)
chosen s (c ∷ cs) h = (c, refl)

open_gate :
    (a b : Bool) (p q r : Plan)
    → a ≡ true
    → b ≡ true
    → (if not a then p else if not b then q else r) ≡ r
open_gate true true p q r e f = refl
open_gate true false p q r e f = absurd (cc f)
open_gate false b p q r e f = absurd (cc e)

-- With prewarming enabled and the gate passed, a repository that a confident prediction expects above
-- its runners within the lead, below its cap, without work or a recent prewarm, and with a runner that
-- is not draining, makes planPrewarm act.
pub plan_prewarm_acts :
    (x : Input) (p : Prediction) (q : RepoPeak)
    → x.enabled ≡ true
    → passes x.gate ≡ true
    → In p x.predictions
    → IsNear x p
    → In q p.repos
    → IsShort x q
    → HasCopy x q
    → (c : Candidate) × (plan_prewarm x ≡ act c.source.name c.repo c.deficit c)
unfolding plan_prewarm
plan_prewarm_acts x p q e f i n j h k =
    let s = scan x x.predictions (record { held = []; candidates = [] }) in
    let m : Some s = scan_finds x x.predictions p q _ i n j h k in
    let (c, r) =
      chosen s (sort before s.candidates)
        (λ z. full s.candidates m (sym (length-sort before s.candidates) ∙ z)) in
    (
      c,
      open_gate x.enabled (passes x.gate) (stay disabled) (stay (gate_failed (gate_reasons x.gate)))
            _ e f
          ∙ r,
    )
  where
    full : (cs : List Candidate) → is_nil cs ≡ false → length cs ≢ 0
    full [] h z = absurd (cc h)
    full (c ∷ cs) h z = omega (arith, z)
