-- ===== src/Devices/Manage.antt =====
-- The list of the paired devices, and the end of a token (dashboard/lib/devices.js).
use actions_runners.Prelude.{
  Bool, List, Option, String, erase, false, first, if◌then◌else◌, is_some, lookup, map, none, some,
  true, ℕ, ◌==◌,
}
use actions_runners.Devices.Store.{Caller, Store, caller_of}

-- `revokeDevice`
unfoldable pub revoke : String → Store → Bool × Store
revoke key s = if is_some (lookup key s) then (true, erase key s) else (false, s)

-- A line of `listDevices`.
pub record Listed : Type 0 where
  pub caller : Caller
  pub created_at : ℕ
  pub last_seen_at : ℕ
  pub expires_at : Option ℕ

-- The time 0 is no time.
abbrev pub some_time : Option ℕ → Option ℕ
some_time none = none
some_time (some t) = if t == 0 then none else some t

-- `listDevices`
unfoldable pub list_devices : Store → List Listed
list_devices s =
    map
      (λ e. record {
        caller = caller_of e.0 e.1;
        created_at = e.1.created_at;
        last_seen_at = e.1.last_seen_at;
        expires_at = some_time (first e.1.refresh_expires_at e.1.expires_at);
      })
      s
