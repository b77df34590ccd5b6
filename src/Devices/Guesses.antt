-- ===== src/Devices/Guesses.antt =====
-- How many pairing codes can be guessed (dashboard/lib/devices.js).
use actions_runners.Prelude.{
  All, Bool, Bool-cases, List, String, [], ap, arith, false, filter, inl, inr, leb, length, lookup,
  ltb, ltb→lt, not, refl, sym, true, ℕ, ◌&&◌, ◌*◌, ◌+◌, ◌-◌, ◌<◌, ◌||◌, ◌∙◌, ◌∷◌, ◌≡◌, ◌≤◌, ◌⊎◌,
}
use actions_runners.Devices.Pairing.{
  Answer, Pairing, Window, digits, global_failure_limit, globally_locked, invalid, is_past,
  is_rate_limited, is_spendable, next_window, rate_window_ms, record_failure, redeem_code, spend,
}

pub record Try : Type 0 where
  pub at : ℕ
  pub code : String
  pub ip : String

-- The answers to attempts, one after the other.
unfoldable pub answers : List Try → Pairing → List Answer
unfolding redeem_code
answers [] p = []
answers (t ∷ ts) p = let r = redeem_code t.at t.code t.ip p in r.0 ∷ answers ts r.1

abbrev pub is_invalid : Answer → Bool
is_invalid invalid = true
is_invalid _ = false

abbrev pub wrong : List Answer → ℕ
wrong given = length (filter is_invalid given)

-- What an attempt does to the count of everybody's failures.
abbrev Counted : ℕ → Window → Answer → Window → Type 0
Counted now w a v =
    ((is_invalid a ≡ false) × (v ≡ w)) ⊎ ((globally_locked now w ≡ false) × (v ≡ next_window now w))

spend-Counted :
    (now : ℕ) (code ip : String) (p : Pairing)
    → globally_locked now p.global ≡ false
    → Counted now p.global (spend now code ip p).0 (spend now code ip p).1.global
unfolding spend record_failure
spend-Counted now code ip p h = elim (Bool-cases (is_spendable now (lookup code p.codes))) [
  | inl e ↦ rw e (inl (refl, refl))
  | inr e ↦ rw e (inr (h, refl))
]

redeem-Counted :
    (now : ℕ) (code ip : String) (p : Pairing)
    → Counted now p.global (redeem_code now code ip p).0 (redeem_code now code ip p).1.global
unfolding redeem_code
redeem-Counted now code ip p =
    let r = is_rate_limited now ip p.rates in
    let q = record p { rates = r.1 } in
    elim (Bool-cases (r.0 || globally_locked now q.global)) [
      | inl e ↦ rw e (inl (refl, refl))
      | inr e ↦
          rw e
            (spend-Counted now (digits code) ip q (unlocked r.0 (globally_locked now q.global) e))
    ]
  where
    unlocked : (a b : Bool) → (a || b) ≡ false → b ≡ false
    unlocked a b h = ground arith

wrong-le : (a : Answer) (rest : List Answer) → wrong (a ∷ rest) ≤ wrong rest + 1
wrong-le a rest = ground arith

wrong_not : (a : Answer) (rest : List Answer) → is_invalid a ≡ false → wrong (a ∷ rest) ≡ wrong rest
wrong_not a rest h = rw h refl

in_window :
    (now : ℕ) (w : Window)
    → now ≤ w.start + rate_window_ms
    → globally_locked now w ≡ false
    → (w.count < global_failure_limit) × (next_window now w ≡ record w { count = w.count + 1 })
in_window now w h k = elim (Bool-cases (is_past now w)) [
  | inl e ↦ let l = ltb→lt (w.start + rate_window_ms) now e in absurd (omega (arith, h, l))
  | inr e ↦ (below (is_past now w) w.count e k, rw e refl)
]
  where
    below :
        (b : Bool) (n : ℕ)
        → b ≡ false
        → (not b && leb global_failure_limit n) ≡ false
        → n < global_failure_limit
    below b n e h = ground arith

-- Within the window that runs, the failures left are what the limit leaves.
window_bound :
    (w : Window) (ts : List Try) (p : Pairing)
    → p.global ≡ w
    → All (λ t. t.at ≤ w.start + rate_window_ms) ts
    → wrong (answers ts p) ≤ global_failure_limit - w.count
unfolding answers
window_bound w [] p h k = omega arith
window_bound w (t ∷ ts) p h k =
    let r = redeem_code t.at t.code t.ip p in
    elim (redeem-Counted t.at t.code t.ip p) [
      | inl (n, v) ↦
          let more = window_bound w ts r.1 (v ∙ h) k.1 in
          omega (arith, wrong_not r.0 (answers ts r.1) n, more)
      | inr (u, v) ↦
          let (l, e) = in_window t.at w k.0 (sym (ap (globally_locked t.at) h) ∙ u) in
          let more =
            window_bound (record w { count = w.count + 1 }) ts r.1 (v ∙ ap (next_window t.at) h ∙ e)
              k.1 in
          omega (arith, wrong-le r.0 (answers ts r.1), more, l)
    ]

later_window :
    (from now : ℕ) (ts : List Try)
    → from ≤ now
    → All (λ t. (from ≤ t.at) × (t.at ≤ from + rate_window_ms)) ts
    → All (λ t. t.at ≤ now + rate_window_ms) ts
later_window from now [] l h = tt
later_window from now (t ∷ ts) l h = (omega (arith, l, h.0.1), later_window from now ts l h.1)

two_windows :
    (from : ℕ) (ts : List Try) (p : Pairing)
    → All (λ t. (from ≤ t.at) × (t.at ≤ from + rate_window_ms)) ts
    → wrong (answers ts p) ≤ (global_failure_limit - p.global.count) + global_failure_limit
unfolding answers
two_windows from [] p h = omega arith
two_windows from (t ∷ ts) p h =
    let r = redeem_code t.at t.code t.ip p in
    elim (redeem-Counted t.at t.code t.ip p) [
      | inl (n, v) ↦
          let more = two_windows from ts r.1 h.1 in
          omega (arith, wrong_not r.0 (answers ts r.1) n, more, ap (λ w. w.count) v)
      | inr (u, v) ↦ elim (Bool-cases (is_past t.at p.global)) [
        | inl e ↦
            let fresh : Window = record { count = 1; start = t.at } in
            let same : r.1.global ≡ fresh = v ∙ rw e refl in
            let more = window_bound fresh ts r.1 same (later_window from t.at ts h.0.0 h.1) in
            omega (arith, wrong-le r.0 (answers ts r.1), more)
        | inr e ↦
            let inside : t.at ≤ p.global.start + rate_window_ms = not_past t.at p.global.start e in
            let (l, f) = in_window t.at p.global inside u in
            let more = two_windows from ts r.1 h.1 in
            omega (arith, wrong-le r.0 (answers ts r.1), more, l, ap (λ w. w.count) (v ∙ f))
      ]
    ]
  where
    not_past :
        (now start : ℕ) → ltb (start + rate_window_ms) now ≡ false → now ≤ start + rate_window_ms
    not_past now start h = ground arith

-- In any minute at most 40 attempts find a code wrong, from whatever addresses they come, whatever
-- codes they try and whatever was tried before.
pub guess_bound :
    (from : ℕ) (ts : List Try) (p : Pairing)
    → All (λ t. (from ≤ t.at) × (t.at ≤ from + rate_window_ms)) ts
    → wrong (answers ts p) ≤ 2 * global_failure_limit
guess_bound from ts p h = let more = two_windows from ts p h in omega (arith, more)
