-- ===== src/Placement/Best.antt =====
-- What `choosePlacement` (dashboard/lib/placement.js) promises of the host that it chooses.
use mathlib.Core.Path.{ap, sym, subst, ◌∙◌}
use actions_runners.Prelude.{
  All, All-In, All-of, Bool, In, In-filter, In-map, In-sort, IsFalling, List, Option, Option-cases,
  String, [], any, any-In, any_of_In, arith, false, filter-In, if◌then◌else◌, inl, inr, ltb, map,
  map-In, none, not, or_else, refl, some, sort-In, sort-IsFalling, str_eq, str_eq_iff, str_eq_refl,
  true, ◌&&◌, ◌+◌, ◌<◌, ◌==◌, ◌↔◌, ◌∷◌, ◌≡◌, ◌≤◌, ◌⊎◌,
}
use actions_runners.Placement.{
  Considered, Host, Placement, Reason, Room, Wish, choose_placement, chosen, consider, free_slots,
  has_label, has_labels, has_room, host_name, nowhere, preferred, ranking, refusal, score_host,
  stale_heartbeat_ms,
}

abbrev pub Roomy : Wish → Host → Type 0
Roomy w h = (w.require_headroom ≡ false) ⊎ ((r : Room) × (h.room ≡ some r) × (r.ok ≡ true))

-- A host that may get the runner.
abbrev pub Fits : (String → String) → Wish → Host → Type 0
Fits lower w h =
    (h.drained ≡ false)
    × (0 < h.last_heartbeat)
    × (w.now ≤ h.last_heartbeat + stale_heartbeat_ms)
    × Roomy w h
    × All (λ l. In (lower l) (map lower h.labels)) w.required

-- The host that was chosen may get the runner, and none that may has more free slots.
abbrev pub Best : (String → String) → Wish → List Host → Placement → Type 0
Best lower w hosts (nowhere considered) = All (λ h. ¬ Fits lower w h) hosts
Best lower w hosts (chosen c rest considered) =
    (h : Host) × In h hosts
    × (c.host ≡ host_name h)
    × Fits lower w h
    × All (λ g. (¬ Fits lower w g) ⊎ (free_slots g ≤ free_slots h)) hosts

some_inj {ℓ} : {A : Type ℓ} {a b : A} → some a ≡ some b → a ≡ b
some_inj {a} e = ap (λ o. or_else o a) e

-- Neither load nor locality outweighs a free slot.
score_free :
    (g h : Host) (repo : String)
    → score_host g repo ≤ score_host h repo
    → free_slots g ≤ free_slots h
unfolding score_host
score_free g h repo e = ground arith

room_cases :
    (b : Bool) (o : Option Room)
    → ((b && not (elim o [ none ↦ false | some r ↦ r.ok ])) ≡ false)
      ↔ ((b ≡ false) ⊎ ((r : Room) × (o ≡ some r) × (r.ok ≡ true)))
room_cases false o = ((λ e. inl refl), λ e. refl)
room_cases true none = ((λ e. cc), λ e. elim e [ inl q ↦ cc | inr (r, q, k) ↦ cc ])
room_cases true (some r) = (
  (λ e. inr (r, refl, ground arith)),
  λ e. elim e [ inl q ↦ cc | inr (s, q, k) ↦ rw (ap Room.ok (some_inj q) ∙ k) refl ],
)

room_iff : (w : Wish) (h : Host) → ((w.require_headroom && not (has_room h)) ≡ false) ↔ Roomy w h
unfolding has_room
room_iff w h = room_cases w.require_headroom h.room

and_true : (a b : Bool) → (a && b) ≡ true → (a ≡ true) × (b ≡ true)
and_true a b h = ground arith

label_In : (l : String) (ls : List String) → any (str_eq l) ls ≡ true → In l ls
label_In l ls h =
    let (a, i, e) = any-In (str_eq l) ls h in subst (λ b. In b ls) (sym ((str_eq_iff l a).0 e)) i

passed :
    (p q r s t : Reason) (a b d f g : Bool)
    → (if a
        then some p
        else if b
        then some q
        else if d
        then some r
        else if f
        then some s
        else if not g
        then some t
        else none)
      ≡ none
    → (a ≡ false) × (b ≡ false) × (d ≡ false) × (f ≡ false) × (g ≡ true)
passed p q r s t a b d f g h = ground arith

labels_iff :
    (lower : String → String) (h : Host) (ls : List String)
    → (has_labels lower h ls ≡ true) ↔ All (λ l. In (lower l) (map lower h.labels)) ls
unfolding has_labels
labels_iff lower h [] = ((λ e. tt), λ e. refl)
labels_iff lower h (l ∷ ls) =
    let (to, from) = labels_iff lower h ls in
    (
      (λ e. let (a, b) = and_true (has_label lower h l) _ e in (label_In (lower l) _ a, to b)),
      λ e. rw (any_of_In (str_eq (lower l)) (lower l) _ e.0 (str_eq_refl (lower l))) (from e.1),
    )

-- The chain of tests passes a host exactly when it is fit.
pub refusal_iff :
    (lower : String → String) (w : Wish) (h : Host) → (refusal lower w h ≡ none) ↔ Fits lower w h
unfolding refusal
refusal_iff lower w h =
    let (r_to, r_from) = room_iff w h in
    let (l_to, l_from) = labels_iff lower h w.required in
    (
      (λ e.
          let (a, b, d, f, g) =
            passed _ _ _ _ _ h.drained (h.last_heartbeat == 0)
              (ltb (h.last_heartbeat + stale_heartbeat_ms) w.now)
              (w.require_headroom && not (has_room h)) (has_labels lower h w.required) e in
          (a, ground arith, ground arith, r_to f, l_to g)),
      λ (a, b, d, f, g). rw (a, r_from f, l_from g) (ground arith),
    )

module _ (lower : String → String) (w : Wish) where
  -- A host that is fit is considered eligible, with its score; and only such a host is.
  fit-consider :
      (h : Host)
      → Fits lower w h
      → ((consider lower w h).eligible ≡ true) × ((consider lower w h).score ≡ score_host h w.repo)
  unfolding consider
  fit-consider h f = rw ((refusal_iff lower w h).1 f, consider) (refl, refl)

  consider-fit :
      (h : Host)
      → (consider lower w h).eligible ≡ true
      → Fits lower w h × ((consider lower w h).host ≡ host_name h)
  unfolding consider
  consider-fit h e = elim (Option-cases (refusal lower w h)) [
    | inl n ↦ ((refusal_iff lower w h).0 n, rw (n, consider) refl)
    | inr (why, n) ↦ cc (rw (n, consider) at e)
  ]

  module _ (locale : String → String → Bool) (hosts : List Host) where
    fit-ranking :
        (h : Host)
        → In h hosts
        → Fits lower w h
        → In (consider lower w h) (ranking lower locale w hosts)
    unfolding ranking
    fit-ranking h i f = sort-In (preferred lower locale) (consider lower w h) _ (
        filter-In (λ c. c.eligible) (consider lower w h) (map (consider lower w) hosts)
          (map-In (consider lower w) h hosts i) (fit-consider h f).0)

    ranking-fit :
        (c : Considered)
        → In c (ranking lower locale w hosts)
        → (h : Host) × In h hosts × (c ≡ consider lower w h) × (c.eligible ≡ true)
    unfolding ranking
    ranking-fit c i =
        let (j, e) =
          In-filter (λ c. c.eligible) c (map (consider lower w) hosts)
            (In-sort (preferred lower locale) c _ i) in
        let (h, k, q) = In-map (consider lower w) c hosts j in (h, k, q, e)

    first_top :
        (d c : Considered) (rest : List Considered)
        → IsFalling (preferred lower locale) (λ c. c.score) (c ∷ rest)
        → In d (c ∷ rest)
        → d.score ≤ c.score
    first_top d c rest h (inl e) = omega (arith, ap Considered.score e)
    first_top d c rest h (inr i) = All-In (λ y. y.score ≤ c.score) d rest h.0 i

    ranking-IsFalling :
        IsFalling (preferred lower locale) (λ c. c.score) (ranking lower locale w hosts)
    unfolding ranking
    ranking-IsFalling =
        sort-IsFalling (preferred lower locale) (λ c. c.score) (λ x y e. ground arith)
          (λ x y e. ground arith) _

    no_better :
        (c : Considered) (rest : List Considered)
        → ranking lower locale w hosts ≡ c ∷ rest
        → (h : Host) → c ≡ consider lower w h
        → Fits lower w h
        → (g : Host) → In g hosts
        → (¬ Fits lower w g) ⊎ (free_slots g ≤ free_slots h)
    no_better c rest q h e f g j = elim (Option-cases (refusal lower w g)) [
      | inl n ↦
          let k = (refusal_iff lower w g).0 n in
          let falling =
            subst (IsFalling (preferred lower locale) (λ c. c.score)) q ranking-IsFalling in
          let place : In (consider lower w g) (c ∷ rest) = rw q at fit-ranking g j k in
          let top = first_top (consider lower w g) c rest falling place in
          inr (
            score_free g h w.repo (
              omega
                (arith, top, (fit-consider g k).1, ap Considered.score e, (fit-consider h f).1)))
      | inr (why, n) ↦ inl (λ k. cc (sym n ∙ (refusal_iff lower w g).1 k))
    ]

    choice :
        (cs : List Considered)
        → ranking lower locale w hosts ≡ cs
        → Best lower w hosts (elim cs [
          | [] ↦ nowhere (map (consider lower w) hosts)
          | c ∷ rest ↦ chosen c rest (map (consider lower w) hosts)
        ])
    choice [] q =
        All-of _ hosts
          (λ h i f. let j : In (consider lower w h) [] = rw q at fit-ranking h i f in elim j [ ])
    choice (c ∷ rest) q =
        let (h, i, e, t) = ranking-fit c (rw q (inl refl)) in
        let (f, n) = consider-fit h (sym (ap Considered.eligible e) ∙ t) in
        let falling =
          subst (IsFalling (preferred lower locale) (λ c. c.score)) q ranking-IsFalling in
        (h, i, ap Considered.host e ∙ n, f, All-of _ hosts (λ g j. no_better c rest q h e f g j))

-- The host that `choosePlacement` chooses is one of the hosts, not drained, heard of within the limit
-- for heartbeats, with headroom where that is asked for, and with every required label, whatever its
-- case; and no other such host has more free slots, however loaded or warm it is. When it chooses
-- none, no host is such.
pub choose_placement-Best :
    (lower : String → String) (locale : String → String → Bool) (w : Wish) (hosts : List Host)
    → Best lower w hosts (choose_placement lower locale w hosts)
unfolding choose_placement
choose_placement-Best lower locale w hosts =
    choice lower w locale hosts (ranking lower locale w hosts) refl
