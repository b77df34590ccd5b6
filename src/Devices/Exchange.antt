-- ===== src/Devices/Exchange.antt =====
-- A pairing code exchanged for a token (dashboard/lib/devices.js, `exchangeCode`).
use mathlib.Core.Option
use actions_runners.Prelude.{Bool, List, Option, String, is_some, none, some, ℕ}
use actions_runners.Devices.Store.{Grant, Issued, Random, Store, add_token, token_entry}
use actions_runners.Devices.Pairing.{Answer, Pairing, granted, invalid, limited, redeem_code}

-- What `exchangeCode` answers: `paired` carries the token.
pub data Exchange : Type 0 where
  locked refused : Exchange
  paired : Issued → Exchange

abbrev pub plain_grant : Option String → Option (List String) → Grant
plain_grant name scopes = record {
  name = name;
  scopes = scopes;
  kind = "device";
  ttl_ms = 0;
  refresh_ttl_ms = 0;
  client_id = none;
}

module _ (show : ℕ → String) (clean digest : String → String) where
  -- The call of `addToken` for a code that was granted; `none` is a search for a name without end.
  unfoldable pub answer_code :
      Answer → Option String → Random → ℕ → Store → Option (Exchange × Store)
  answer_code limited name r now s = some (locked, s)
  answer_code invalid name r now s = some (refused, s)
  answer_code (granted scopes) name r now s =
      Option.map (λ i. (paired i.0, i.1))
        (add_token show clean digest (plain_grant name scopes) r now s)

  -- `exchangeCode`
  unfoldable pub exchange_code :
      String
      → Option String
      → String
      → Random
      → ℕ
      → Pairing × Store
      → Option (Exchange × (Pairing × Store))
  unfolding redeem_code answer_code
  exchange_code code name ip r now (p, s) =
      let a = redeem_code now code ip p in
      Option.map (λ x. (x.0, (a.1, x.1))) (answer_code a.0 name r now s)

  -- `deviceTokenMatches`
  unfoldable pub token_matches : String → ℕ → Store → Bool
  unfolding token_entry
  token_matches token now s = is_some (token_entry show clean digest token now s).0
