-- ===== src/Devices/Paired.antt =====
-- From a pairing code to the calls of the paired device (dashboard/lib/devices.js).
use actions_runners.Prelude.{
  List, Option, String, false, filter, lookup, lookup-erase, lookup-insert, ltb, none, not, refl,
  some, str_eq, str_eq_iff, str_eq_refl, true, ℕ, ◌+◌, ◌∙◌, ◌≡◌,
}
use actions_runners.Devices.Store.{Issued, Random, Store, find_hash, prune, token_entry}
use actions_runners.Devices.Pairing.{
  Code, Pairing, code_ttl_ms, create_code, digits, free_code, globally_locked, granted,
  is_rate_limited, is_spendable, keep_code, new_code, redeem_code, spend,
}
use actions_runners.Devices.Tokens.{token_entry-add_token}
use actions_runners.Devices.Exchange.{answer_code, exchange_code, paired, plain_grant}

-- What `createPairingCode` leaves of the state.
keep_code_lem :
    (o : Option String) (c : Code) (p : Pairing) (code : String)
    → (keep_code o c p).0 ≡ some code
    → (lookup code (keep_code o c p).1.codes ≡ some c)
      × ((keep_code o c p).1.rates ≡ p.rates)
      × ((keep_code o c p).1.global ≡ p.global)
keep_code_lem none c p code h = cc
keep_code_lem (some x) c p code h =
    let same : x ≡ code = cc h in
    (lookup-insert x code c p.codes ∙ rw ((str_eq_iff x code).1 same) refl, refl, refl)

-- A code that can be spent, with no limit met, is granted with its scopes and is gone.
redeem_code_lem :
    (now : ℕ) (code ip : String) (p : Pairing) (c : Code)
    → (is_rate_limited now ip p.rates).0 ≡ false
    → globally_locked now p.global ≡ false
    → digits code ≡ code
    → lookup code p.codes ≡ some c
    → is_spendable now (some c) ≡ true
    → ((redeem_code now code ip p).0 ≡ granted c.scopes)
      × (lookup code (redeem_code now code ip p).1.codes ≡ none)
unfolding redeem_code spend
redeem_code_lem now code ip p c r g d l s =
    rw (r, g, d, l, s) (refl, lookup-erase code code p.codes ∙ rw (str_eq_refl code) refl)

-- A code that `createPairingCode` made with some scopes, entered before its time is over from an
-- address that no limit holds, is exchanged for a token: for good, the token is admitted as a device
-- with the code's scopes, and the code is no longer pending. The conditions are that the digits of the
-- code are the code, that `show` gives different texts to different numbers, and that the store has
-- neither the key nor the hash of the token that are drawn.
pub exchange_code-create_code :
    (show : ℕ → String)
    → ((m n : ℕ) → show m ≡ show n → m ≡ n)
    → (clean digest : String → String) (draws : List String) (scopes : Option (List String))
      (name : Option String) (code ip : String) (r : Random) (now then at : ℕ) (p : Pairing)
      (s : Store)
    → (create_code draws scopes now p).0 ≡ some code
    → digits code ≡ code
    → ltb (now + code_ttl_ms) then ≡ false
    → (is_rate_limited then ip p.rates).0 ≡ false
    → globally_locked then p.global ≡ false
    → lookup r.key (prune then s) ≡ none
    → find_hash show clean digest (digest r.token) (prune then s) ≡ none
    → str_eq r.token "" ≡ false
    → (i : Issued) × (p1 : Pairing) × (s1 : Store) × (exchange_code show clean digest code name ip r
          then
          ((create_code draws scopes now p).1, s)
        ≡ some (paired i, (p1, s1)))
      × ((token_entry show clean digest i.token at s1).0
          ≡ some (record { key = i.key; name = i.name; kind = "device"; scopes = scopes }))
      × (lookup code p1.codes ≡ none)
unfolding exchange_code answer_code create_code
exchange_code-create_code show inj clean digest draws scopes name code ip r now then at p s c d b l
      g k n t =
    let p0 = (create_code draws scopes now p).1 in
    let live = filter (λ e. not (ltb e.1.expires now)) p.codes in
    let (kept, rates, global) =
      keep_code_lem (free_code draws live) (new_code now scopes) (record p { codes = live }) code
        c in
    let (gives, gone) =
      redeem_code_lem then code ip p0 (new_code now scopes) (rw rates l) (rw global g) d kept
        (rw b refl) in
    let (i, s1, adds, enters, revoked, after_it) =
      token_entry-add_token show inj clean digest (plain_grant name scopes) r then at s k n t
        refl in
    (i, (redeem_code then code ip p0).1, s1, rw (gives, adds) refl, enters, gone)
