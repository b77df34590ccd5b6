-- ===== src/Sizing/Keys.antt =====
-- The rows of `sizeFleet` (dashboard/lib/sizing.js) by key: no two have the same one, and the last
-- pass finds every row in its repo's group.
use mathlib.Core.Path.{ap, sym, ◌∙◌}
use actions_runners.Prelude.{
  All, All-filter, Bool, Bool-cases, List, Option, String, [], arith, false, filter, find?, inl,
  inr, map, min, none, or_else, place, refl, some, sort, sort-All, str_eq, str_eq_iff, str_eq_refl,
  str_eq_sym, true, ℕ, ◌&&◌, ◌-◌, ◌∷◌, ◌≡◌,
}
use actions_runners.Labels.{Key, same_key, same_role}
use actions_runners.Sizing.{Row, delta, give_row, grant, rows}

str_eq_comm : (s t : String) → str_eq s t ≡ str_eq t s
str_eq_comm s t = elim (Bool-cases (str_eq s t)) [
  | inl e ↦ e ∙ sym (rw ((str_eq_iff s t).0 e) (str_eq_refl t))
  | inr e ↦ e ∙ sym (str_eq_sym s t e)
]

same_role_refl : (o : Option String) → same_role o o ≡ true
same_role_refl none = refl
same_role_refl (some a) = str_eq_refl a

same_role_comm : (o q : Option String) → same_role o q ≡ same_role q o
same_role_comm none none = refl
same_role_comm none (some b) = refl
same_role_comm (some a) none = refl
same_role_comm (some a) (some b) = str_eq_comm a b

and-left : (a b : Bool) → (a && b) ≡ true → a ≡ true
and-left a b h = ground arith

pub same_key_refl : (k : Key) → same_key k k ≡ true
same_key_refl k = rw (str_eq_refl k.repo, same_role_refl k.role) refl

pub same_key-sym : (j k : Key) → same_key j k ≡ same_key k j
same_key-sym j k = rw (str_eq_comm j.repo k.repo, same_role_comm j.role k.role) refl

pub same_key-repo : (j k : Key) → same_key j k ≡ true → j.repo ≡ k.repo
same_key-repo j k h = (str_eq_iff j.repo k.repo).0 (and-left (str_eq j.repo k.repo) _ h)

-- The key is not one of the rows'.
abbrev pub Fresh : Key → List Row → Type 0
Fresh k rows = All (λ s. same_key s.key k ≡ false) rows

abbrev pub Keyed : List Row → Type 0
Keyed [] = Unit
Keyed (row ∷ rows) = Fresh row.key rows × Keyed rows

Fresh-place :
    (before : Row → Row → Bool) (k : Key) (row : Row) (rows : List Row)
    → same_key row.key k ≡ false
    → Fresh k rows
    → Fresh k (place before row rows)
unfolding place
Fresh-place before k row [] e h = (e, tt)
Fresh-place before k row (s ∷ rows) e h = elim (Bool-cases (before s row)) [
  | inl b ↦ rw b (h.0, Fresh-place before k row rows e h.1)
  | inr b ↦ rw b (e, h)
]

Keyed-place :
    (before : Row → Row → Bool) (row : Row) (rows : List Row)
    → Fresh row.key rows
    → Keyed rows
    → Keyed (place before row rows)
unfolding place
Keyed-place before row [] e h = (tt, tt)
Keyed-place before row (s ∷ rows) e h = elim (Bool-cases (before s row)) [
  | inl b ↦ rw b (
    Fresh-place before s.key row rows (same_key-sym row.key s.key ∙ e.0) h.0,
    Keyed-place before row rows e.1 h.1,
  )
  | inr b ↦ rw b (e, h)
]

pub Keyed-sort :
    (before : Row → Row → Bool) (rows : List Row) → Keyed rows → Keyed (sort before rows)
unfolding sort
Keyed-sort before [] h = tt
Keyed-sort before (row ∷ rows) h =
    Keyed-place before row (sort before rows) (sort-All before _ rows h.0)
      (Keyed-sort before rows h.1)

pub Keyed-filter : (p : Row → Bool) (rows : List Row) → Keyed rows → Keyed (filter p rows)
Keyed-filter p [] h = tt
Keyed-filter p (row ∷ rows) h = elim (Bool-cases (p row)) [
  | inl e ↦ rw e (All-filter _ p rows h.0, Keyed-filter p rows h.1)
  | inr e ↦ rw e (Keyed-filter p rows h.1)
]

-- The row of a group that has the key of another, or that other.
abbrev pub look : List Row → Row → Row
look group row = or_else (find? (λ s. same_key s.key row.key) group) row

look_skip :
    (g : Row) (group rows : List Row)
    → Fresh g.key rows
    → map (look (g ∷ group)) rows ≡ map (look group) rows
look_skip g group [] h = refl
look_skip g group (row ∷ rows) h =
    let e = same_key-sym g.key row.key ∙ h.0 in
    rw e (ap (λ rs. look group row ∷ rs) (look_skip g group rows h.1))

give_row-key : (row : Row) (n : ℕ) → (give_row row n).key ≡ row.key
unfolding give_row
give_row-key row n = ground arith

pub look-grant :
    (left : ℕ) (rows : List Row) → Keyed rows → map (look (grant left rows)) rows ≡ grant left rows
unfolding grant
look-grant left [] h = refl
look-grant left (row ∷ rows) h =
    let n = min (delta row) left in
    let g = give_row row n in
    let e : same_key g.key row.key ≡ true = rw (give_row-key row n) (same_key_refl row.key) in
    let fresh : Fresh g.key rows = rw (give_row-key row n) h.0 in
    let tail = look_skip g (grant (left - n) rows) rows fresh ∙ look-grant (left - n) rows h.1 in
    rw e (ap (λ rs. g ∷ rs) tail)
