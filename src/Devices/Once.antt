-- ===== src/Devices/Once.antt =====
-- Which attempts a pairing code is granted (dashboard/lib/devices.js).
use actions_runners.Prelude.{
  All, All-In, All-of, Bool, Bool-cases, Distinct, In, List, Option, Option-cases, String, [], ap,
  erase, false, if◌then◌else◌, inl, inr, is_some, leb, lookup, lookup-erase, lookup-nil, none, refl,
  str_eq, str_eq_iff, str_eq_refl, true, ℕ, ◌||◌, ◌∙◌, ◌∷◌, ◌≡◌, ◌⊎◌,
}
use actions_runners.Devices.Pairing.{
  Answer, Code, Pairing, Window, burn, digits, global_failure_limit, globally_locked, granted,
  is_rate_limited, is_spendable, next_window, record_failure, redeem_code, spend,
}
use actions_runners.Devices.Guesses.{Try}

abbrev pub is_granted : Answer → Bool
is_granted (granted s) = true
is_granted _ = false

-- The codes that were granted, in the order of the attempts.
unfoldable pub spent : List Try → Pairing → List String
unfolding redeem_code
spent [] p = []
spent (t ∷ ts) p =
    let r = redeem_code t.at t.code t.ip p in
    let rest = spent ts r.1 in if is_granted r.0 then digits t.code ∷ rest else rest

-- What an attempt does to the codes: it spends one that was waiting, or grants nothing.
abbrev Spends : ℕ → String → Pairing → Answer → Pairing → Type 0
Spends now code p a q =
    ((is_granted a ≡ false))
    ⊎ ((is_granted a ≡ true)
        × (is_spendable now (lookup code p.codes) ≡ true)
        × (lookup code q.codes ≡ none))

erased : (code : String) (codes : List (String × Code)) → lookup code (erase code codes) ≡ none
erased code codes = lookup-erase code code codes ∙ rw (str_eq_refl code) refl

spend-Spends :
    (now : ℕ) (code ip : String) (p : Pairing)
    → Spends now code p (spend now code ip p).0 (spend now code ip p).1
unfolding spend
spend-Spends now code ip p = elim (Bool-cases (is_spendable now (lookup code p.codes))) [
  | inl e ↦ rw e (inr (refl, refl, erased code p.codes))
  | inr e ↦ rw e (inl refl)
]

spend_shrinks :
    (now : ℕ) (code ip c : String) (p : Pairing)
    → lookup c p.codes ≡ none
    → lookup c (spend now code ip p).1.codes ≡ none
unfolding spend record_failure
spend_shrinks now code ip c p h = elim (Bool-cases (is_spendable now (lookup code p.codes))) [
  | inl e ↦ rw e (lookup-erase code c p.codes ∙ either (str_eq code c) (lookup c p.codes) h)
  | inr e ↦ rw e (burnt (next_window now p.global))
]
  where
    either : (b : Bool) (o : Option Code) → o ≡ none → (if b then none else o) ≡ none
    either true o k = refl
    either false o k = k

    burnt : (w : Window) → lookup c (burn w p.codes) ≡ none
    burnt w = elim (Bool-cases (leb global_failure_limit w.count)) [
      | inl e ↦ rw e (lookup-nil Code c)
      | inr e ↦ rw e h
    ]

redeem-Spends :
    (now : ℕ) (code ip : String) (p : Pairing)
    → Spends now (digits code) p (redeem_code now code ip p).0 (redeem_code now code ip p).1
unfolding redeem_code
redeem-Spends now code ip p =
    let r = is_rate_limited now ip p.rates in
    let q = record p { rates = r.1 } in
    elim (Bool-cases (r.0 || globally_locked now q.global)) [
      | inl e ↦ rw e (inl refl)
      | inr e ↦ rw e (spend-Spends now (digits code) ip q)
    ]

redeem_shrinks :
    (now : ℕ) (code ip c : String) (p : Pairing)
    → lookup c p.codes ≡ none
    → lookup c (redeem_code now code ip p).1.codes ≡ none
unfolding redeem_code
redeem_shrinks now code ip c p h =
    let r = is_rate_limited now ip p.rates in
    let q = record p { rates = r.1 } in
    elim (Bool-cases (r.0 || globally_locked now q.global)) [
      | inl e ↦ rw e h
      | inr e ↦ rw e (spend_shrinks now (digits code) ip c q h)
    ]

-- A code that is not pending is never granted.
gone :
    (c : String) (ts : List Try) (p : Pairing)
    → lookup c p.codes ≡ none
    → All (λ d. str_eq d c ≡ false) (spent ts p)
unfolding spent
gone c [] p h = tt
gone c (t ∷ ts) p h =
    let r = redeem_code t.at t.code t.ip p in
    let rest = gone c ts r.1 (redeem_shrinks t.at t.code t.ip c p h) in
    elim (redeem-Spends t.at t.code t.ip p) [
      | inl n ↦ rw n rest
      | inr (g, s, m) ↦ rw g (other (digits t.code) s, rest)
    ]
  where
    other : (d : String) → is_spendable t.at (lookup d p.codes) ≡ true → str_eq d c ≡ false
    other d s = elim (Bool-cases (str_eq d c)) [
      | inr e ↦ e
      | inl e ↦
          let same : lookup d p.codes ≡ none =
            ap (λ x. lookup x p.codes) ((str_eq_iff d c).0 e) ∙ h in
          absurd (cc (rw same at s))
    ]

spent-Distinct : (ts : List Try) (p : Pairing) → Distinct (spent ts p)
unfolding spent
spent-Distinct [] p = tt
spent-Distinct (t ∷ ts) p =
    let r = redeem_code t.at t.code t.ip p in
    elim (redeem-Spends t.at t.code t.ip p) [
      | inl n ↦ rw n (spent-Distinct ts r.1)
      | inr (g, s, m) ↦ rw g (gone (digits t.code) ts r.1 m, spent-Distinct ts r.1)
    ]

-- In any sequence of attempts without a new code, from whatever addresses, no pairing code is granted
-- twice, and each that is granted was pending at the beginning.
pub spent_once :
    (ts : List Try) (p : Pairing)
    → Distinct (spent ts p) × All (λ c. is_some (lookup c p.codes) ≡ true) (spent ts p)
spent_once ts p = (spent-Distinct ts p, All-of _ (spent ts p) (λ c i. was_pending c i))
  where
    was_pending : (c : String) → In c (spent ts p) → is_some (lookup c p.codes) ≡ true
    was_pending c i = elim (Option-cases (lookup c p.codes)) [
      | inr (e, s) ↦ rw s refl
      | inl n ↦
          let k = All-In (λ d. str_eq d c ≡ false) c (spent ts p) (gone c ts p n) i in
          absurd (cc (k, str_eq_refl c))
    ]
