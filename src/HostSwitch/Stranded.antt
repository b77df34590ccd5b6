-- ===== src/HostSwitch/Stranded.antt =====
-- `switchOffImpact` (dashboard/lib/host-switch.js) against the fleet with the host's runners drained.
use mathlib.Core.Logic.{◌↔◌}
use actions_runners.Prelude.{
  String, ◌≡◌, refl, sym, ap, ◌∙◌, ◌⊎◌, inl, inr, true, ◌&&◌, not, some, List, map, arith, any,
  filter, In, In-filter, filter-In, In-map, map-In, any-In, any_of_In, In-unique, unique-In,
  In-sort, sort-In, str_eq, str_eq_iff, str_lt, Bool-cases, if◌then◌else◌,
}
use actions_runners.Runner.{Runner, drained}
use actions_runners.HostSwitch.{serving, on_host, served_elsewhere, switch_off_impact}

-- Some runner would take a job of the repo.
abbrev pub Served : List Runner → String → Type 0
Served rs repo = (r : Runner) × In r rs × (serving r ≡ true) × (r.repo ≡ repo)

-- The fleet once the host is off: each of its runners carries a marker.
abbrev pub drain_host : String → Runner → Runner
drain_host host r =
    if str_eq r.host_id host
    then record r { drain_state = some drained; drain_by = some "host" }
    else r

abbrev pub switched_off : String → List Runner → List Runner
switched_off host rs = map (drain_host host) rs

serving-drain_host :
    (host : String) (r : Runner)
    → serving (drain_host host r) ≡ (not (str_eq r.host_id host) && serving r)
unfolding serving
serving-drain_host host r = ground arith

repo-drain_host : (host : String) (r : Runner) → (drain_host host r).repo ≡ r.repo
repo-drain_host host r = ground arith

elsewhere-Served :
    (host : String) (rs : List Runner) (repo : String)
    → In repo (served_elsewhere host rs) ↔ Served (switched_off host rs) repo
unfolding served_elsewhere
elsewhere-Served host rs repo = (to, from)
  where
    to : In repo (served_elsewhere host rs) → Served (switched_off host rs) repo
    to i =
        let (r, j, e) = In-map (λ (r : Runner). r.repo) repo _ i in
        let (k, q) = In-filter _ r rs j in
        (
          drain_host host r,
          map-In (drain_host host) r rs k,
          serving-drain_host host r ∙ q,
          repo-drain_host host r ∙ sym e,
        )

    from : Served (switched_off host rs) repo → In repo (served_elsewhere host rs)
    from (a, i, s, e) =
        let (r, j, p) = In-map (drain_host host) a rs i in
        let q = sym (serving-drain_host host r) ∙ ap serving (sym p) ∙ s in
        let t = sym (ap (λ (x : Runner). x.repo) p ∙ repo-drain_host host r) ∙ e in
        rw (← t) (map-In (λ (x : Runner). x.repo) r _ (filter-In _ r rs j q))

serves_here :
    (host : String) (rs : List Runner) (repo : String)
    → In repo (map (λ (r : Runner). r.repo) (filter serving (on_host host rs)))
    → Served rs repo
unfolding on_host
serves_here host rs repo i =
    let (r, j, e) = In-map (λ (x : Runner). x.repo) repo _ i in
    let (k, s) = In-filter serving r _ j in (r, (In-filter _ r rs k).0, s, sym e)

not_ephemeral : (r : Runner) → serving r ≡ true → not r.ephemeral ≡ true
unfolding serving
not_ephemeral r s = ground arith

here_or_elsewhere :
    (host : String) (rs : List Runner) (repo : String)
    → Served rs repo
    → In repo (map (λ (r : Runner). r.repo) (filter serving (on_host host rs)))
      ⊎ In repo (served_elsewhere host rs)
unfolding on_host served_elsewhere
here_or_elsewhere host rs repo (r, i, s, e) = elim (Bool-cases (str_eq r.host_id host)) [
  | inl h ↦ inl (
      rw (← e) (
        map-In (λ (x : Runner). x.repo) r _
          (filter-In serving r _ (filter-In _ r rs i (rw (h, not_ephemeral r s))) s)))
  | inr h ↦ inr (rw (← e) (map-In (λ (x : Runner). x.repo) r _ (filter-In _ r rs i (rw (h, s)))))
]

not-any : (repo : String) (xs : List String) → ¬ In repo xs → not (any (str_eq repo) xs) ≡ true
not-any repo xs h = elim (Bool-cases (any (str_eq repo) xs)) [
  | inl e ↦ let (a, i, q) = any-In (str_eq repo) xs e in absurd (h (rw ((str_eq_iff repo a).0 q) i))
  | inr e ↦ rw e
]

any-not : (repo : String) (xs : List String) → not (any (str_eq repo) xs) ≡ true → ¬ In repo xs
any-not repo xs h i = cc (any_of_In (str_eq repo) repo xs i ((str_eq_iff repo repo).1 refl))

-- A repo is named as stranded exactly when some runner serves it now and none would once every
-- runner of the host is drained.
pub stranded_iff :
    (host : String) (rs : List Runner) (repo : String)
    → In repo (switch_off_impact host rs).stranded
      ↔ (Served rs repo × ¬ Served (switched_off host rs) repo)
unfolding switch_off_impact
stranded_iff host rs repo = (to, from)
  where
    to :
        In repo (switch_off_impact host rs).stranded
        → Served rs repo × ¬ Served (switched_off host rs) repo
    to i =
        let (j, q) = In-filter _ repo _ (In-sort str_lt repo _ i) in
        (
          serves_here host rs repo (In-unique repo _ j),
          λ s. any-not repo _ q ((elsewhere-Served host rs repo).1 s),
        )

    from :
        Served rs repo × ¬ Served (switched_off host rs) repo
        → In repo (switch_off_impact host rs).stranded
    from (s, lost) = elim (here_or_elsewhere host rs repo s) [
      | inl i ↦ sort-In str_lt repo _ (
          filter-In _ repo _ (unique-In repo _ i)
            (not-any repo _ (λ j. lost ((elsewhere-Served host rs repo).0 j))))
      | inr j ↦ absurd (lost ((elsewhere-Served host rs repo).0 j))
    ]
