-- ===== src/Devices/Refresh.antt =====
-- The refresh of a grant (dashboard/lib/devices.js, `refreshGrant`).
use mathlib.Core.Path.{subst}
use actions_runners.Prelude.{
  All, Bool, Bool-cases, Distinct, List, String, [], ap, arith, erase, erase-new, false, filter,
  find?, find?-filter, if◌then◌else◌, inl, inr, insert, lookup, map, none, not, or_else, refl, some,
  str_eq, str_eq_iff, str_eq_refl, true, ℕ, ◌+◌, ◌∙◌, ◌∷◌, ◌≡◌,
}
use actions_runners.Devices.Store.{
  Entry, Random, Store, Terms, caller_of, find_hash, find_refresh, is_expired, is_over, prune,
  refresh_grant, renewal, renewed, runs_past, same_client, token_entry,
}
use actions_runners.Devices.Tokens.{token_entry_old}

abbrev pub keys_of : Store → List String
keys_of s = map (λ e. e.0) s

lookup_fresh :
    (key : String) (s : Store) → All (λ k. str_eq k key ≡ false) (keys_of s) → lookup key s ≡ none
unfolding lookup
lookup_fresh key [] h = refl
lookup_fresh key ((j, e) ∷ s) h = rw h.0 (lookup_fresh key s h.1)

-- What a test finds when only the entry that was set may pass it.
find?-insert :
    (q : String × Entry → Bool) (key : String) (e : Entry) (s : Store)
    → Distinct (keys_of s)
    → find? q (erase key s) ≡ none
    → find? q (insert key e s) ≡ (if q (key, e) then some (key, e) else none)
unfolding erase insert
find?-insert q key e [] d n = refl
find?-insert q key e ((j, w) ∷ s) d n = elim (Bool-cases (str_eq j key)) [
  | inl t ↦
      let same : j ≡ key = (str_eq_iff j key).0 t in
      let fresh =
        lookup_fresh key s (subst (λ x. All (λ k. str_eq k x ≡ false) (keys_of s)) same d.0) in
      let rest : find? q s ≡ none = rw (t, erase-new key s fresh) at n in
      rw (t, rest) (ap (λ x. if q (x, e) then some (x, e) else none) same)
  | inr f ↦ elim (Bool-cases (q (j, w))) [
    | inl c ↦ absurd (cc (rw (f, c) at n))
    | inr c ↦ rw (f, c) (find?-insert q key e s d.1 (rw (f, c) at n))
  ]
]

-- A test that finds an entry still finds it among those that are kept.
find?-kept :
    (q p : String × Entry → Bool) (x : String × Entry) (s : Store)
    → find? q s ≡ some x
    → p x ≡ true
    → find? q (filter p s) ≡ some x
find?-kept q p x [] h k = cc
find?-kept q p x (y ∷ s) h k = elim (Bool-cases (q y)) [
  | inl e ↦ let same : y ≡ x = cc (rw e at h) in rw (ap p same ∙ k, e) (ap some same)
  | inr e ↦ ground (arith, find?-kept q p x s)
]

module _ (show : ℕ → String) (clean digest : String → String) where
  -- What a refresh sets never ends before the refresh.
  renewed_kept :
      (t : Terms) (r : Random) (now : ℕ) (e : Entry)
      → is_over now (renewed show clean digest t r now e) ≡ false
  renewed_kept t r now e = ground arith

  -- The store after a refresh that is granted.
  renew_lem :
      (token : String) (t : Terms) (r : Random) (now : ℕ) (s : Store) (key : String) (e : Entry)
      → str_eq token "" ≡ false
      → find_refresh show clean digest (digest token) s ≡ some (key, e)
      → same_client show clean digest e.client_id t.client_id ≡ true
      → runs_past show clean digest now e.refresh_expires_at ≡ true
      → refresh_grant show clean digest token t r now s
        ≡ some (
          renewal show clean digest t r now key e,
          prune now (insert key (renewed show clean digest t r now e) s),
        )
  unfolding refresh_grant
  renew_lem token t r now s key e n f c x = rw (n, f, c, x) refl

  refresh_grant_old :
      (token : String) (t : Terms) (r : Random) (now : ℕ) (s : Store)
      → find_refresh show clean digest (digest token) s ≡ none
      → refresh_grant show clean digest token t r now s ≡ none
  unfolding refresh_grant
  refresh_grant_old token t r now s n = elim (Bool-cases (str_eq token "")) [
    | inl e ↦ rw e refl
    | inr e ↦ rw (e, n) refl
  ]

  token_entry_found :
      (token key : String) (at : ℕ) (e : Entry) (s : Store)
      → str_eq token "" ≡ false
      → find_hash show clean digest (digest token) s ≡ some (key, e)
      → is_expired show clean digest at e.expires_at ≡ false
      → (token_entry show clean digest token at s).0 ≡ some (caller_of key e)
  unfolding token_entry
  token_entry_found token key at e s n f x = rw (n, f, x) refl

-- The entry that a test finds after a refresh, when no other entry of the store passes it.
find?-renewed :
    (q : String × Entry → Bool) (key : String) (e : Entry) (now : ℕ) (s : Store)
    → Distinct (keys_of s)
    → find? q (erase key s) ≡ none
    → is_over now e ≡ false
    → find? q (prune now (insert key e s)) ≡ (if q (key, e) then some (key, e) else none)
unfolding prune
find?-renewed q key e now s d n o = elim (Bool-cases (q (key, e))) [
  | inl m ↦ rw m (
      find?-kept q (λ x. not (is_over now x.1)) (key, e) (insert key e s)
        (find?-insert q key e s d n ∙ rw m refl) (rw o refl))
  | inr m ↦ rw m (
      find?-filter q (λ x. not (is_over now x.1)) (insert key e s)
        (find?-insert q key e s d n ∙ rw m refl))
]

-- In a store without two entries of one key, a refresh token that the entry of a key has, within its
-- time and from the client it was given to, is exchanged. When the hashes of the tokens that were drawn
-- differ from those of the old pair, and no other entry has the hash of one of these tokens, the new
-- token is then admitted as the same key with the same name, kind and scopes until it expires, and
-- the old token and the old refresh token are refused.
pub token_entry-refresh_grant :
    (show : ℕ → String) (clean digest : String → String) (token old : String) (t again : Terms)
    (r r1 : Random) (now later : ℕ) (s : Store) (key : String) (e : Entry)
    → Distinct (keys_of s)
    → str_eq token "" ≡ false
    → find_refresh show clean digest (digest token) s ≡ some (key, e)
    → same_client show clean digest e.client_id t.client_id ≡ true
    → runs_past show clean digest now e.refresh_expires_at ≡ true
    → find_refresh show clean digest (digest token) (erase key s) ≡ none
    → find_hash show clean digest (digest r.token) (erase key s) ≡ none
    → find_hash show clean digest (digest old) (erase key s) ≡ none
    → str_eq (digest token) (digest r.refresh_token) ≡ false
    → str_eq (digest old) (digest r.token) ≡ false
    → str_eq r.token "" ≡ false
    → is_expired show clean digest later (some (now + t.ttl_ms)) ≡ false
    → (s1 : Store) × (refresh_grant show clean digest token t r now s
        ≡ some (renewal show clean digest t r now key e, s1))
      × ((token_entry show clean digest r.token later s1).0 ≡ some (caller_of key e))
      × ((token_entry show clean digest old later s1).0 ≡ none)
      × (refresh_grant show clean digest token again r1 later s1 ≡ none)
unfolding find_hash find_refresh
token_entry-refresh_grant show clean digest token old t again r r1 now later s key e d n f c x u v w
      a b m l =
    let e1 = renewed show clean digest t r now e in
    let s1 = prune now (insert key e1 s) in
    let o = renewed_kept show clean digest t r now e in
    (
      s1,
      renew_lem show clean digest token t r now s key e n f c x,
      token_entry_found show clean digest r.token key later e1 s1 m
          (find?-renewed (λ x. str_eq (digest r.token) x.1.hash) key e1 now s d v o
            ∙ rw (str_eq_refl (digest r.token)) refl)
          l,
      token_entry_old show clean digest old later s1
          (find?-renewed (λ x. str_eq (digest old) x.1.hash) key e1 now s d w o ∙ rw b refl),
      refresh_grant_old show clean digest token again r1 later s1 (
          find?-renewed (λ x. str_eq (digest token) (or_else x.1.refresh_hash "")) key e1 now s d u
            o
          ∙ rw a refl),
    )
