-- ===== src/Devices/Tokens.antt =====
-- The life of a device's token (dashboard/lib/devices.js): issued, used and revoked.
use actions_runners.Prelude.{
  Bool-cases, String, [], arith, erase, erase-insert, erase-new, false, find?-append, if◌then◌else◌,
  inl, inr, insert, insert-new, leb, lookup, lookup-insert, none, or_else, refl, some, str_eq,
  str_eq_iff, str_eq_refl, true, ℕ, ◌+◌, ◌∷◌, ◌≡◌,
}
use actions_runners.Devices.Store.{
  Entry, Grant, Issued, Random, Store, add_token, after, caller_of, find_hash, is_expired, issued,
  new_entry, prune, seen, token_entry,
}
use actions_runners.Devices.Manage.{revoke}
use actions_runners.Devices.Names.{device_name_free}

module _ (show : ℕ → String) (clean digest : String → String) where
  -- The entry of a token that no other entry has the hash of.
  find_new :
      (h key : String) (e : Entry) (live : Store)
      → lookup key live ≡ none
      → find_hash show clean digest h live ≡ none
      → str_eq h e.hash ≡ true
      → find_hash show clean digest h (insert key e live) ≡ some (key, e)
  unfolding find_hash
  find_new h key e live k n m =
      rw (insert-new key e live k, find?-append (λ e. str_eq h e.1.hash) live ((key, e) ∷ []) n, m)
        refl

  revoke-insert :
      (key : String) (e : Entry) (s : Store) → revoke key (insert key e s) ≡ (true, erase key s)
  unfolding revoke
  revoke-insert key e s = rw (lookup-insert key key e s, str_eq_refl key, erase-insert key e s) refl

  -- Revoking a key that the rest of the store lacks leaves the rest, whether or not its entry was
  -- marked as seen.
  revoke_new :
      (now : ℕ) (key : String) (e : Entry) (live : Store)
      → lookup key live ≡ none
      → revoke key (seen show clean digest now key e (insert key e live)) ≡ (true, live)
  revoke_new now key e live n = elim (Bool-cases (leb (e.last_seen_at + 300000) now)) [
    | inl q ↦
        rw
          (
            q,
            revoke-insert key (record e { last_seen_at = now }) (insert key e live),
            erase-insert key e live,
            erase-new key live n,
          )
          refl
    | inr q ↦ rw (q, revoke-insert key e live, erase-new key live n) refl
  ]

  kind_kept : (k : String) → or_else (if str_eq k "device" then none else some k) "device" ≡ k
  kind_kept k = ground (arith, str_eq_iff k "device")

  -- A token that no other entry has the hash of is admitted as its entry.
  token_entry_new :
      (token key : String) (at : ℕ) (e : Entry) (live : Store)
      → str_eq token "" ≡ false
      → lookup key live ≡ none
      → find_hash show clean digest (digest token) live ≡ none
      → str_eq (digest token) e.hash ≡ true
      → is_expired show clean digest at e.expires_at ≡ false
      → token_entry show clean digest token at (insert key e live)
        ≡ (some (caller_of key e), seen show clean digest at key e (insert key e live))
  unfolding token_entry
  token_entry_new token key at e live t k n m x =
      rw (t, find_new (digest token) key e live k n m, x) refl

  pub token_entry_old :
      (token : String) (at : ℕ) (live : Store)
      → find_hash show clean digest (digest token) live ≡ none
      → (token_entry show clean digest token at live).0 ≡ none
  unfolding token_entry
  token_entry_old token at live n = elim (Bool-cases (str_eq token "")) [
    | inl e ↦ rw e refl
    | inr e ↦ rw (e, n) refl
  ]

-- When `show` gives different texts to different numbers, and the store has neither the key that was
-- drawn nor the hash of the token that was drawn, `addToken` ends with that token. Until it expires the
-- token is admitted with the key and the name that were answered and with the kind and the scopes that
-- were asked for; revoking the key after that leaves the store as if the token had never been, but for
-- the entries that had ended, and the token is refused.
pub token_entry-add_token :
    (show : ℕ → String)
    → ((m n : ℕ) → show m ≡ show n → m ≡ n)
    → (clean digest : String → String) (g : Grant) (r : Random) (now at : ℕ) (s : Store)
    → lookup r.key (prune now s) ≡ none
    → find_hash show clean digest (digest r.token) (prune now s) ≡ none
    → str_eq r.token "" ≡ false
    → is_expired show clean digest at (after now g.ttl_ms) ≡ false
    → (i : Issued) × (s1 : Store) × (add_token show clean digest g r now s ≡ some (i, s1))
      × ((token_entry show clean digest i.token at s1).0
          ≡ some (record { key = i.key; name = i.name; kind = g.kind; scopes = g.scopes }))
      × (revoke i.key (token_entry show clean digest i.token at s1).1 ≡ (true, prune now s))
      × ((token_entry show clean digest i.token at (prune now s)).0 ≡ none)
unfolding add_token
token_entry-add_token show inj clean digest g r now at s k n t x =
    let live = prune now s in
    let (name, d, f) = device_name_free show inj clean digest live g.name in
    let e = new_entry show clean digest g r now name in
    let admitted =
      token_entry_new show clean digest r.token r.key at e live t k n (str_eq_refl (digest r.token))
        x in
    (
      issued show clean digest g r now name,
      insert r.key e live,
      rw d refl,
      rw (admitted, kind_kept show clean digest g.kind) refl,
      rw admitted (revoke_new show clean digest at r.key e live k),
      token_entry_old show clean digest r.token at live n,
    )
