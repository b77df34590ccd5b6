-- ===== src/Autoscale/Wait.antt =====
-- What lets a row of `planScaleUp` (dashboard/lib/autoscale.js) become a candidate.
use mathlib.Core.Path.{subst, ap, sym}
use actions_runners.Prelude.{
  All, Bool, Bool-cases, In, In-filter, In-map, List, Option, Option-cases, String, [], any, any-In,
  arith, false, filter, find?, find?-In, inl, inr, is_nil, is_some, is_text, map, none, not,
  or_else, refl, some, str_eq, str_eq_iff, true, ℕ, ◌&&◌, ◌+◌, ◌<◌, ◌==◌, ◌||◌, ◌∙◌, ◌∷◌, ◌≡◌, ◌≤◌,
  ◌⊎◌,
}
use actions_runners.Runner.{Runner, has_drain, is_busy}
use actions_runners.Labels.{Run, is_queued, key_of, role_label, same_key}
use actions_runners.Autoscale.ScaleUp.{
  Blocked, Candidate, Cause, SizingRow, Thresholds, UpInput, Verdict, blocked, build, candidate,
  candidates, cause_allows, clone_pool, clone_source, consider, consider_since, duplicate_of,
  key_of_row, last_up_of, oldest, queued_since, queued_under, register_first, role_is_new, scale_of,
  siblings_of,
}

-- The runner to copy: one of the repo that nobody is draining.
abbrev pub Copied : UpInput → Candidate → Type 0
Copied x c =
    (r : Runner) × In r x.runners
    × (r.repo ≡ c.row.repo)
    × (r.drain_state ≡ none)
    × (c.action.name ≡ some r.name)

-- A run of the repo that has been queued since `since`.
abbrev pub QueuedSince : UpInput → String → ℕ → Type 0
QueuedSince x repo since =
    (a : Run) × In a x.active × (a.status ≡ "queued") × (a.repo ≡ repo) × (a.at ≡ some since)

-- No diagnosis, none for the repo, or one for it that asks for a runner with high confidence.
abbrev pub CauseFits : Option (List Cause) → String → Type 0
CauseFits none repo = Unit {0}
CauseFits (some cs) repo =
    All (λ k. str_eq k.repo repo ≡ false) cs
    ⊎ ((k : Cause) × In k cs
        × (k.repo ≡ repo)
        × (k.action_eligible ≡ true)
        × (k.high_confidence ≡ true))

-- The candidate's action is for its row's repo, registers a new runner or copies one, its row's work
-- has been queued for the time that its scale asks, and the row's last addition is over its cooldown.
abbrev pub Waited : (String → String) → UpInput → Candidate → Type 0
Waited lower x c =
    (c.action.repo ≡ c.row.repo)
    × ((c.action.register ≡ true) ⊎ Copied x c)
    × CauseFits x.causes c.row.repo
    × (last_up_of lower x c.row + c.scale.cooldown_ms ≤ x.now)
    × ((since : ℕ) × (c.scale ≡ scale_of lower x c.row since)
        × (since + c.scale.min_queued_ms ≤ x.now)
        × QueuedSince x c.row.repo since)

In-oldest : (ts : List ℕ) {t : ℕ} → oldest ts ≡ some t → In t ts
unfolding oldest
In-oldest [] h = cc
In-oldest (u ∷ ts) {t} h = elim (Option-cases (oldest ts)) [
  | inl n ↦ ground (arith, rw n at h)
  | inr (v, n) ↦ ground (arith, rw n at h, In-oldest ts n)
]

undrained : (r : Runner) → not (has_drain r) ≡ true → r.drain_state ≡ none
undrained r h = elim (Option-cases r.drain_state) [ inl n ↦ n | inr (d, n) ↦ cc (rw n at h) ]

clone_pool-In :
    (rs : List Runner) (role : Option String) (r : Runner)
    → In r (clone_pool rs role)
    → In r rs × (r.drain_state ≡ none)
unfolding clone_pool
clone_pool-In rs none r i =
    let (j, e) = In-filter (λ s. not (has_drain s)) r rs i in (j, undrained r e)
clone_pool-In rs (some role) r i =
    let pool = filter (λ s. not (has_drain s)) rs in
    let same = filter (λ s. is_text (role_label s.extra_labels) role) pool in
    let k : In r pool = elim (Bool-cases (is_nil same)) [
      | inl e ↦ rw e at i
      | inr e ↦ (In-filter (λ s. is_text (role_label s.extra_labels) role) r pool (rw e at i)).0
    ] in
    let (j, e) = In-filter (λ s. not (has_drain s)) r rs k in (j, undrained r e)

clone_source-In :
    (rs : List Runner) (role : Option String) {r : Runner}
    → clone_source rs role ≡ some r
    → In r (clone_pool rs role)
unfolding clone_source
clone_source-In rs role {r} h =
    elim (Option-cases (find? (λ s. not (is_busy s)) (clone_pool rs role))) [
      | inl n ↦ (find?-In (λ s. true) (clone_pool rs role) (rw n at h)).0
      | inr (v, n) ↦ (find?-In (λ s. not (is_busy s)) (clone_pool rs role) (n ∙ rw n at h)).0
    ]

and_three : (a b d : Bool) → (a && b && d) ≡ true → (a ≡ true) × (b ≡ true) × (d ≡ true)
and_three a b d h = ground arith

and-left : (a b : Bool) → (a && b) ≡ true → a ≡ true
and-left a b h = ground arith

same_key-repo :
    (lower : String → String) (a : Run) (row : SizingRow)
    → same_key (key_of lower a) (key_of_row row) ≡ true
    → a.repo ≡ row.repo
unfolding key_of
same_key-repo lower a row h = (str_eq_iff a.repo row.repo).0 (and-left (str_eq a.repo row.repo) _ h)

at_known : (o : Option ℕ) {t : ℕ} → is_some o ≡ true → t ≡ or_else o 0 → o ≡ some t
at_known none h e = cc
at_known (some n) h e = ap some (sym e)

filter-nil {ℓ} :
    {A : Type ℓ} (p : A → Bool) (xs : List A)
    → is_nil (filter p xs) ≡ true
    → All (λ x. p x ≡ false) xs
filter-nil p [] h = tt
filter-nil p (x ∷ xs) h = elim (Bool-cases (p x)) [
  | inl e ↦ absurd (cc (rw e at h))
  | inr e ↦ (e, filter-nil p xs (rw e at h))
]

or-split : (a b : Bool) → (a || b) ≡ true → (a ≡ true) ⊎ (b ≡ true)
or-split a b h = ground arith

abbrev asks : Cause → Bool
asks k = k.action_eligible && k.high_confidence

asking :
    (cs : List Cause) (repo : String) (k : Cause)
    → In k (filter (λ d. str_eq d.repo repo) cs)
    → asks k ≡ true
    → CauseFits (some cs) repo
asking cs repo k i h =
    let (j, e) = In-filter (λ (d : Cause). str_eq d.repo repo) k cs i in
    inr (
      k,
      j,
      (str_eq_iff k.repo repo).0 e,
      and-left k.action_eligible k.high_confidence h,
      ground arith,
    )

allows-CauseFits :
    (causes : Option (List Cause)) (repo : String) (ids : List ℕ)
    → cause_allows causes repo ids ≡ true
    → CauseFits causes repo
unfolding cause_allows
allows-CauseFits none repo ids h = tt
allows-CauseFits (some cs) repo ids h =
    let of_repo = filter (λ (d : Cause). str_eq d.repo repo) cs in
    let mine : Cause → Bool = λ d. any (λ i. i == d.run_id) ids in
    let of_runs = filter mine of_repo in
    elim (Bool-cases (is_nil of_runs)) [
      | inl e ↦ elim (or-split (is_nil of_repo) (any asks of_repo) (rw e at h)) [
        | inl n ↦ inl (filter-nil _ cs n)
        | inr a ↦ let (k, i, q) = any-In asks of_repo a in asking cs repo k i q
      ]
      | inr e ↦ elim (or-split (is_nil of_runs) (any asks of_runs) (rw e at h)) [
        | inl n ↦ cc
        | inr a ↦
            let (k, i, q) = any-In asks of_runs a in
            asking cs repo k (In-filter mine k of_repo i).0 q
      ]
    ]

pub Verdict-cases :
    (v : Verdict) → ((b : Blocked) × (v ≡ blocked b)) ⊎ ((c : Candidate) × (v ≡ candidate c))
Verdict-cases (blocked b) = inl (b, refl)
Verdict-cases (candidate c) = inr (c, refl)

module _ (lower : String → String) (x : UpInput) where
  clone-Copied :
      (row : SizingRow) {r : Runner}
      → clone_source (siblings_of lower x row) row.role ≡ some r
      → In r x.runners × (r.repo ≡ row.repo) × (r.drain_state ≡ none)
  clone-Copied row {r} h =
      let i = clone_source-In (siblings_of lower x row) row.role h in
      let (j, d) = clone_pool-In (siblings_of lower x row) row.role r i in
      let (k, e) = In-filter (λ s. str_eq s.repo row.repo) r x.runners j in
      (k, ground (arith, str_eq_iff r.repo row.repo, e), d)

  since-QueuedSince :
      (row : SizingRow) {t : ℕ}
      → queued_since lower x (key_of_row row) ≡ some t
      → QueuedSince x row.repo t
  unfolding queued_since queued_under
  since-QueuedSince row {t} h =
      let i =
        In-oldest (map (λ (a : Run). or_else a.at 0) (queued_under lower x (key_of_row row))) h in
      let (a, j, e) =
        In-map (λ (a : Run). or_else a.at 0) t (queued_under lower x (key_of_row row)) i in
      let (k, q) = In-filter _ a x.active j in
      let (m, w, o) =
        and_three (is_queued a) (is_some a.at) (same_key (key_of lower a) (key_of_row row)) q in
      (a, k, (str_eq_iff a.status "queued").0 m, same_key-repo lower a row o, at_known a.at w e)

  first-Verdict :
      (row : SizingRow) (th : Thresholds) {c : Candidate}
      → register_first lower x row th ≡ candidate c
      → (c.row ≡ row) × (c.scale ≡ th) × (c.action.repo ≡ row.repo) × (c.action.register ≡ true)
  unfolding register_first
  first-Verdict row th {c} h = ground arith

  duplicate-Copied :
      (row : SizingRow) (th : Thresholds) {r : Runner}
      → clone_source (siblings_of lower x row) row.role ≡ some r
      → ((duplicate_of lower x row th r).action.register ≡ true)
        ⊎ Copied x (duplicate_of lower x row th r)
  unfolding duplicate_of
  duplicate-Copied row th {r} h = elim (Bool-cases (role_is_new lower x row)) [
    | inl e ↦ inl e
    | inr e ↦ let (i, q, d) = clone-Copied row h in inr (r, i, q, d, rw e refl)
  ]

  build-Verdict :
      (row : SizingRow) (th : Thresholds) {c : Candidate}
      → build lower x row th ≡ candidate c
      → (c.row ≡ row)
        × (c.scale ≡ th)
        × (c.action.repo ≡ row.repo)
        × ((c.action.register ≡ true) ⊎ Copied x c)
  unfolding build
  build-Verdict row th {c} h =
      elim (Option-cases (clone_source (siblings_of lower x row) row.role)) [
        | inl n ↦ let (a, b, d, e) = first-Verdict row th (rw (n, build) at h) in (a, b, d, inl e)
        | inr (r, n) ↦
            let e : duplicate_of lower x row th r ≡ c = cc (rw (n, build) at h) in
            subst
              (λ d.
                (d.row ≡ row)
                × (d.scale ≡ th)
                × (d.action.repo ≡ row.repo)
                × ((d.action.register ≡ true) ⊎ Copied x d))
              e (unfold duplicate_of in (refl, refl, refl, duplicate-Copied row th n))
      ]

  consider_since-split :
      (row : SizingRow) (since : ℕ) {c : Candidate}
      → consider_since lower x row since ≡ candidate c
      → (since + (scale_of lower x row since).min_queued_ms ≤ x.now)
        × (last_up_of lower x row + (scale_of lower x row since).cooldown_ms ≤ x.now)
        × (cause_allows x.causes row.repo (map (λ a. a.id) (queued_under lower x (key_of_row row)))
            ≡ true)
        × (build lower x row (scale_of lower x row since) ≡ candidate c)
  unfolding consider_since
  consider_since-split row since {c} h = ground arith

  consider-Waited :
      (row : SizingRow) {c : Candidate}
      → consider lower x row ≡ candidate c
      → (c.row ≡ row) × Waited lower x c
  unfolding consider
  consider-Waited row {c} h = elim (Option-cases (queued_since lower x (key_of_row row))) [
    | inl n ↦ cc (rw (n, consider) at h)
    | inr (t, n) ↦
        let (q, l, a, b) = consider_since-split row t (rw (n, consider) at h) in
        let (e, f, g, k) = build-Verdict row (scale_of lower x row t) b in
        (
          e,
          (
            rw e g,
            k,
            rw e (allows-CauseFits x.causes row.repo _ a),
            rw (e, f) l,
            (t, rw e f, rw f q, rw e (since-QueuedSince row n)),
          ),
        )
  ]

  pub In-candidates :
      (c : Candidate) (rows : List SizingRow)
      → In c (candidates lower x rows)
      → In c.row rows × (0 < c.row.delta) × Waited lower x c
  unfolding candidates
  In-candidates c [] i = elim i [ ]
  In-candidates c (row ∷ rows) i = elim (Bool-cases (row.delta == 0)) [
    | inl e ↦ later (In-candidates c rows (rw e at i))
    | inr e ↦ elim (Verdict-cases (consider lower x row)) [
      | inl (b, v) ↦ later (In-candidates c rows (rw (e, v) at i))
      | inr (d, v) ↦ elim (head d (rw (e, v) at i)) [
        | inl q ↦
            let (r, w) = consider-Waited row v in
            subst (λ c. In c.row (row ∷ rows) × (0 < c.row.delta) × Waited lower x c) (sym q)
              (inl r, rw r (ground arith), w)
        | inr j ↦ later (In-candidates c rows j)
      ]
    ]
  ]
    where
      later :
          In c.row rows × (0 < c.row.delta) × Waited lower x c
          → In c.row (row ∷ rows) × (0 < c.row.delta) × Waited lower x c
      later (j, d, w) = (inr j, d, w)

      head :
          (d : Candidate)
          → In c (d ∷ candidates lower x rows)
          → (c ≡ d) ⊎ In c (candidates lower x rows)
      head d j = j
