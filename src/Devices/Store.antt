-- ===== src/Devices/Store.antt =====
-- The tokens of paired devices (dashboard/lib/devices.js).
use Prim.Native.String.{◌++◌ as text_append}
use actions_runners.Prelude.{
  Bool, List, Option, String, any, false, filter, find?, if◌then◌else◌, insert, is_text, leb,
  length, ltb, map, none, not, or_else, some, str_eq, suc, true, truthy, zero, ℕ, ◌&&◌, ◌+◌, ◌==◌,
  ◌||◌,
}

-- An entry of the store. What may be absent from its JSON is an option.
pub record Entry : Type 0 where
  pub name : String
  pub hash : String
  pub created_at : ℕ
  pub last_seen_at : ℕ
  pub kind : Option String
  pub scopes : Option (List String)
  pub expires_at : Option ℕ
  pub refresh_hash : Option String
  pub refresh_expires_at : Option ℕ
  pub client_id : Option String

abbrev pub Store : Type 0
Store = List (String × Entry)

-- The end of a grant in `prune`; 0 is no end.
abbrev pub end_of : Entry → ℕ
end_of e = or_else (if truthy e.refresh_hash then e.refresh_expires_at else e.expires_at) 0

abbrev pub is_over : ℕ → Entry → Bool
is_over now e = not (end_of e == 0) && ltb (end_of e) now

-- `prune`
unfoldable pub prune : ℕ → Store → Store
prune now s = filter (λ e. not (is_over now e.1)) s

-- The options of `addToken`; a time to live of 0 is none.
pub record Grant : Type 0 where
  pub name : Option String
  pub scopes : Option (List String)
  pub kind : String
  pub ttl_ms : ℕ
  pub refresh_ttl_ms : ℕ
  pub client_id : Option String

-- What a refresh sets.
pub record Terms : Type 0 where
  pub client_id : Option String
  pub ttl_ms : ℕ
  pub refresh_ttl_ms : ℕ

-- What a refresh answers.
pub record Renewal : Type 0 where
  pub token : String
  pub refresh_token : String
  pub expires_at : ℕ
  pub scopes : Option (List String)
  pub key : String

-- What `randomBytes` returns.
pub record Random : Type 0 where
  pub token : String
  pub refresh_token : String
  pub key : String

pub record Issued : Type 0 where
  pub token : String
  pub name : String
  pub key : String
  pub expires_at : Option ℕ
  pub refresh_token : Option String

abbrev pub after : ℕ → ℕ → Option ℕ
after now ttl = if ttl == 0 then none else some (now + ttl)

-- What `deviceTokenEntry` says of a token.
pub record Caller : Type 0 where
  pub key : String
  pub name : String
  pub kind : String
  pub scopes : Option (List String)

abbrev pub caller_of : String → Entry → Caller
caller_of key e = record {
  key = key;
  name = e.name;
  kind = or_else e.kind "device";
  scopes = e.scopes;
}

-- The `(n)` after a name that is taken.
abbrev pub numbered : (ℕ → String) → String → ℕ → String
numbered show base n = text_append base (text_append " (" (text_append (show n) ")"))

module _ (show : ℕ → String) (clean : String → String) (digest : String → String) where
  -- The loop that makes a name unique, with the name to try and the number after it: `none` is a loop
  -- that has not ended in `fuel` rounds.
  unfoldable pub name_loop : ℕ → List String → String → String → ℕ → Option String
  name_loop zero taken base name n = none
  name_loop (suc fuel) taken base name n =
      let rest = name_loop fuel taken base (numbered show base n) (n + 1) in
      if any (str_eq name) taken then rest else some name

  abbrev pub base_name : Option String → String
  base_name n = let safe = clean (or_else n "device") in if str_eq safe "" then "device" else safe

  abbrev pub names_of : Store → List String
  names_of s = map (λ e. e.1.name) s

  -- `deviceName`: a round for every name that is taken, and one more.
  unfoldable pub device_name : Store → Option String → Option String
  unfolding name_loop
  device_name s n = name_loop (length s + 1) (names_of s) (base_name n) (base_name n) 2

  abbrev pub new_entry : Grant → Random → ℕ → String → Entry
  new_entry g r now name = record {
    name = name;
    hash = digest r.token;
    created_at = now;
    last_seen_at = now;
    kind = if str_eq g.kind "device" then none else some g.kind;
    scopes = g.scopes;
    expires_at = after now g.ttl_ms;
    refresh_hash = if g.refresh_ttl_ms == 0 then none else some (digest r.refresh_token);
    refresh_expires_at = after now g.refresh_ttl_ms;
    client_id = if g.refresh_ttl_ms == 0 then none else g.client_id;
  }

  abbrev pub issued : Grant → Random → ℕ → String → Issued
  issued g r now name = record {
    token = r.token;
    name = name;
    key = r.key;
    expires_at = after now g.ttl_ms;
    refresh_token = if g.refresh_ttl_ms == 0 then none else some r.refresh_token;
  }

  abbrev pub issue : Grant → Random → ℕ → Store → Option String → Option (Issued × Store)
  issue g r now live none = none
  issue g r now live (some name) =
      some (issued g r now name, insert r.key (new_entry g r now name) live)

  -- `addToken`
  unfoldable pub add_token : Grant → Random → ℕ → Store → Option (Issued × Store)
  unfolding prune device_name
  add_token g r now s = let live = prune now s in issue g r now live (device_name live g.name)

  abbrev pub is_expired : ℕ → Option ℕ → Bool
  is_expired now none = false
  is_expired now (some t) = not (t == 0) && leb t now

  -- The entry with a hash, in the order of the store.
  unfoldable pub find_hash : String → Store → Option (String × Entry)
  find_hash h s = find? (λ e. str_eq h e.1.hash) s

  abbrev pub seen : ℕ → String → Entry → Store → Store
  seen now key e s =
      if leb (e.last_seen_at + 300000) now
      then insert key (record e { last_seen_at = now }) s
      else s

  abbrev pub admit : ℕ → Store → Option (String × Entry) → Option Caller × Store
  admit now s none = (none, s)
  admit now s (some (key, e)) =
      if is_expired now e.expires_at then (none, s) else (some (caller_of key e), seen now key e s)

  -- `deviceTokenEntry`
  unfoldable pub token_entry : String → ℕ → Store → Option Caller × Store
  unfolding find_hash
  token_entry token now s =
      if str_eq token "" then (none, s) else admit now s (find_hash (digest token) s)

  -- The entry with the hash of a refresh token.
  unfoldable pub find_refresh : String → Store → Option (String × Entry)
  find_refresh h s = find? (λ e. str_eq h (or_else e.1.refresh_hash "")) s

  abbrev pub same_client : Option String → Option String → Bool
  same_client none none = true
  same_client (some a) o = is_text o a
  same_client none (some b) = false

  abbrev pub runs_past : ℕ → Option ℕ → Bool
  runs_past now none = false
  runs_past now (some t) = ltb now t

  abbrev pub renewed : Terms → Random → ℕ → Entry → Entry
  renewed t r now e = record e {
    hash = digest r.token;
    refresh_hash = some (digest r.refresh_token);
    expires_at = some (now + t.ttl_ms);
    refresh_expires_at = some (now + t.refresh_ttl_ms);
    last_seen_at = now;
  }

  abbrev pub renewal : Terms → Random → ℕ → String → Entry → Renewal
  renewal t r now key e = record {
    token = r.token;
    refresh_token = r.refresh_token;
    expires_at = now + t.ttl_ms;
    scopes = e.scopes;
    key = key;
  }

  abbrev pub renew : Terms → Random → ℕ → Store → Option (String × Entry) → Option (Renewal × Store)
  renew t r now s none = none
  renew t r now s (some (key, e)) =
      if not (same_client e.client_id t.client_id) || not (runs_past now e.refresh_expires_at)
      then none
      else some (renewal t r now key e, prune now (insert key (renewed t r now e) s))

  -- `refreshGrant`
  unfoldable pub refresh_grant : String → Terms → Random → ℕ → Store → Option (Renewal × Store)
  unfolding find_refresh prune
  refresh_grant token t r now s =
      if str_eq token "" then none else renew t r now s (find_refresh (digest token) s)
