-- ===== src/Settle/Errors.antt =====
-- How the loop of dashboard/lib/settle.js goes on after errors, and when it ends.
use mathlib.Core.Path.{subst}
use actions_runners.Prelude.{
  All, Bool, Bool-cases, In, List, Never, Option, [], append-In_left, append-In_right, arith, false,
  if◌then◌else◌, inl, inr, leb, length, length-append, refl, some, suc, sym, true, ℕ, ◌+◌, ◌<◌, ◌∷◌,
  ◌≡◌, ◌≤◌,
}
use actions_runners.Settle.Loop.{
  Ask, Reply, Settling, at_limit, broken, got, is_low, missing, nothing, rate_limited, react,
  settle, stops,
}

-- What becomes of a row that was asked about.
abbrev pub Handled : ℕ → Reply → Settling → Type 0
Handled i (got moved) s = In i s.persisted
Handled i missing s = In i s.touched
Handled i broken s = In i s.warned
Handled i rate_limited s = Never {0}

abbrev pub Open : ℕ → Ask → Type 0
Open least a = (is_low a.remaining least ≡ false) × (stops a.reply ≡ false)

react-Handled :
    (a : Ask) (r : Reply) (s : Settling) → stops r ≡ false → Handled a.id r (react a r s)
react-Handled a (got moved) s h = append-In_right a.id s.persisted (a.id ∷ []) (inl refl)
react-Handled a rate_limited s h = absurd (cc h)
react-Handled a missing s h = append-In_right a.id s.touched (a.id ∷ []) (inl refl)
react-Handled a broken s h = append-In_right a.id s.warned (a.id ∷ []) (inl refl)

react_keeps :
    (i : ℕ) (r : Reply) (a : Ask) (q : Reply) (s : Settling)
    → Handled i r s
    → Handled i r (react a q s)
react_keeps i (got m) a (got n) s h = append-In_left i s.persisted _ h
react_keeps i (got m) a rate_limited s h = h
react_keeps i (got m) a missing s h = h
react_keeps i (got m) a broken s h = h
react_keeps i missing a (got n) s h = h
react_keeps i missing a rate_limited s h = h
react_keeps i missing a missing s h = append-In_left i s.touched _ h
react_keeps i missing a broken s h = h
react_keeps i broken a (got n) s h = h
react_keeps i broken a rate_limited s h = h
react_keeps i broken a missing s h = h
react_keeps i broken a broken s h = append-In_left i s.warned _ h
react_keeps i rate_limited a q s h = elim h [ ]

react-calls : (a : Ask) (r : Reply) (s : Settling) → (react a r s).calls ≡ s.calls + 1
react-calls a (got moved) s = refl
react-calls a rate_limited s = refl
react-calls a missing s = refl
react-calls a broken s = refl

if_cases : (P : Settling → Type 0) (b : Bool) (x y : Settling) → P x → P y → P (if b then x else y)
if_cases P true x y h k = h
if_cases P false x y h k = k

settle_keeps :
    (most : Option ℕ) (least : ℕ) (asks : List Ask) (s : Settling) (i : ℕ) (r : Reply)
    → Handled i r s
    → Handled i r (settle most least asks s)
unfolding settle
settle_keeps most least [] s i r h = h
settle_keeps most least (a ∷ rest) s i r h =
    let next = react_keeps i r a a.reply s h in
    if_cases (Handled i r) (at_limit most s.calls) _ _ h (
      if_cases (Handled i r) (is_low a.remaining least) _ _ h (
        if_cases (Handled i r) (stops a.reply) _ _ next
          (settle_keeps most least rest (react a a.reply s) i r next)))

below_limit : (most calls n : ℕ) → calls + suc n ≤ most → leb most calls ≡ false
below_limit most calls n h = ground arith

settle-Handled :
    (most least : ℕ) (asks : List Ask) (s : Settling)
    → s.calls + length asks ≤ most
    → All (Open least) asks
    → All (λ a. Handled a.id a.reply (settle (some most) least asks s)) asks
unfolding settle
settle-Handled most least [] s l h = tt
settle-Handled most least (a ∷ rest) s l h =
    let next = react a a.reply s in
    let room = below_limit most s.calls (length rest) l in
    let more : next.calls + length rest ≤ most = omega (arith, l, react-calls a a.reply s) in
    let same : settle (some most) least (a ∷ rest) s ≡ settle (some most) least rest next =
      rw (room, h.0.0, h.0.1) refl in
    subst (λ t. All (λ b. Handled b.id b.reply t) (a ∷ rest)) (sym same)
      (
        settle_keeps (some most) least rest next a.id a.reply (react-Handled a a.reply s h.0.1),
        settle-Handled most least rest next more h.1,
      )

-- With calls left for all rows, no row at the floor of the rate limit and no answer that it is used up,
-- every row is dealt with, whatever errors the others met: one that GitHub returned is persisted, one
-- that it no longer has is touched, and for any other error there is a warning.
pub settle_all :
    (most least : ℕ) (asks : List Ask)
    → length asks ≤ most
    → All (Open least) asks
    → All (λ a. Handled a.id a.reply (settle (some most) least asks nothing)) asks
settle_all most least asks l h = settle-Handled most least asks nothing (omega (arith, l)) h

-- What a settling has done.
abbrev outcomes : Settling → ℕ
outcomes s = length s.persisted + length s.touched + length s.warned

-- The calls are as many as the rows dealt with, up to one more, and no more than the limit.
abbrev pub Counted : ℕ → Settling → Type 0
Counted most s =
    (length s.persisted + length s.touched + length s.warned ≤ s.calls)
    × (s.calls ≤ length s.persisted + length s.touched + length s.warned + 1)
    × (s.calls ≤ most)

react-Counted :
    (most : ℕ) (a : Ask) (r : Reply) (s : Settling)
    → s.calls < most
    → s.calls ≡ outcomes s
    → Counted most (react a r s)
react-Counted most a (got moved) s l e =
    let n = length-append s.persisted (a.id ∷ []) in
    (omega (arith, l, e, n), omega (arith, l, e, n), omega (arith, l, e))
react-Counted most a rate_limited s l e =
    (omega (arith, l, e), omega (arith, l, e), omega (arith, l, e))
react-Counted most a missing s l e =
    let n = length-append s.touched (a.id ∷ []) in
    (omega (arith, l, e, n), omega (arith, l, e, n), omega (arith, l, e))
react-Counted most a broken s l e =
    let n = length-append s.warned (a.id ∷ []) in
    (omega (arith, l, e, n), omega (arith, l, e, n), omega (arith, l, e))

react-outcomes :
    (a : Ask) (r : Reply) (s : Settling)
    → stops r ≡ false
    → s.calls ≡ outcomes s
    → (react a r s).calls ≡ outcomes (react a r s)
react-outcomes a (got moved) s h e =
    let n = length-append s.persisted (a.id ∷ []) in omega (arith, e, n)
react-outcomes a rate_limited s h e = absurd (cc h)
react-outcomes a missing s h e = let n = length-append s.touched (a.id ∷ []) in omega (arith, e, n)
react-outcomes a broken s h e = let n = length-append s.warned (a.id ∷ []) in omega (arith, e, n)

not_le : (m n : ℕ) → leb m n ≡ false → n < m
not_le m n h = ground arith

settle-Counted_from :
    (most least : ℕ) (asks : List Ask) (s : Settling)
    → s.calls ≤ most
    → s.calls ≡ outcomes s
    → Counted most (settle (some most) least asks s)
unfolding settle
settle-Counted_from most least [] s l e = (omega (arith, e), omega (arith, e), l)
settle-Counted_from most least (a ∷ rest) s l e = elim (Bool-cases (leb most s.calls)) [
  | inl c ↦ rw c (omega (arith, e), omega (arith, e), l)
  | inr c ↦
      let room = not_le most s.calls c in
      rw c (
        if_cases (Counted most) (is_low a.remaining least) _ _
          (omega (arith, e), omega (arith, e), l)
          (elim (Bool-cases (stops a.reply)) [
            | inl k ↦ rw k (react-Counted most a a.reply s room e)
            | inr k ↦
                let next = react-Counted most a a.reply s room e in
                rw k (
                  settle-Counted_from most least rest (react a a.reply s) next.2
                    (react-outcomes a a.reply s k e))
          ]))
]

-- The loop makes no more calls than it may, and each call but the one that met the rate limit is
-- accounted for: its row is persisted, touched or warned about.
settle-Counted :
    (most least : ℕ) (asks : List Ask) → Counted most (settle (some most) least asks nothing)
settle-Counted most least asks =
    settle-Counted_from most least asks nothing (omega arith) (omega arith)
