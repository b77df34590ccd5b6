-- ===== src/Devices/Examples.antt =====
-- A telephone with the name of another one, and the codes and tokens it uses.
use Prim.Native.String.{◌++◌ as text_append, count}
use text.Mathlib.TextLemmas.{length-append as count-append}
use actions_runners.Prelude.{
  All, Distinct, List, String, [], any, ap, arith, erase, false, insert, is_some, keep_chars,
  lookup, none, refl, some, str_eq, suc, sym, true, zero, ℕ, ◌*◌, ◌∙◌, ◌∷◌, ◌≡◌, ◌≤◌,
}
use actions_runners.Devices.Store.{
  Entry, Grant, Issued, Random, Store, Terms, add_token, caller_of, device_name, find_hash,
  find_refresh, name_loop, names_of, prune, refresh_grant, renewal, token_entry,
}
use actions_runners.Devices.Manage.{revoke}
use actions_runners.Devices.Pairing.{
  Pairing, count_failure, create_code, digits, global_failure_limit, is_rate_limited, new_code,
  record_failure, redeem_code, reset_state, spend,
}
use actions_runners.Devices.Tokens.{token_entry-add_token}
use actions_runners.Devices.Exchange.{exchange_code, paired, plain_grant}
use actions_runners.Devices.Names.{device_name_free}
use actions_runners.Devices.Refresh.{token_entry-refresh_grant}
use actions_runners.Devices.Paired.{exchange_code-create_code}
use actions_runners.Devices.Guesses.{Try, answers, guess_bound, wrong}
use actions_runners.Devices.Once.{spent, spent_once}

-- A text for each number: as many ones.
abbrev ones : ℕ → String
ones zero = ""
ones (suc n) = text_append "1" (ones n)

count-ones : (n : ℕ) → count (ones n) ≡ n
count-ones zero = refl
count-ones (suc n) = let e = count-append "1" (ones n) in omega (arith, e, count-ones n)

ones_inj : (m n : ℕ) → ones m ≡ ones n → m ≡ n
ones_inj m n e = sym (count-ones m) ∙ ap count e ∙ count-ones n

abbrev plain : String → String
plain s = s

abbrev hashed : String → String
hashed s = text_append "#" s

abbrev first_phone : Entry
first_phone = record {
  name = "phone";
  hash = "#aa";
  created_at = 5;
  last_seen_at = 5;
  kind = none;
  scopes = some ("read" ∷ []);
  expires_at = none;
  refresh_hash = some "#bb";
  refresh_expires_at = some 9000;
  client_id = some "app";
}

abbrev phones : Store
phones = ("k1", first_phone) ∷ []

abbrev drawn : Random
drawn = record { token = "cc"; refresh_token = "dd"; key = "k2" }

device_name_free_example :
    (name : String) × (device_name ones plain hashed phones (some "phone") ≡ some name)
    × (any (str_eq name) (names_of ones plain hashed phones) ≡ false)
device_name_free_example = device_name_free ones ones_inj plain hashed phones (some "phone")

second_name : device_name ones plain hashed phones (some "phone") ≡ some "phone (11)"
unfolding device_name name_loop
second_name = refl

abbrev asked : Grant
asked = plain_grant (some "phone") (some ("read" ∷ []))

token_entry-add_token_example :
    (i : Issued) × (s1 : Store) × (add_token ones plain hashed asked drawn 100 phones
      ≡ some (i, s1))
    × ((token_entry ones plain hashed i.token 700000 s1).0
        ≡ some
            (record { key = i.key; name = i.name; kind = "device"; scopes = some ("read" ∷ []) }))
    × (revoke i.key (token_entry ones plain hashed i.token 700000 s1).1 ≡ (true, prune 100 phones))
    × ((token_entry ones plain hashed i.token 700000 (prune 100 phones)).0 ≡ none)
unfolding prune find_hash lookup
token_entry-add_token_example =
    token_entry-add_token ones ones_inj plain hashed asked drawn 100 700000 phones refl refl refl
      refl

abbrev terms : Terms
terms = record { client_id = some "app"; ttl_ms = 1000; refresh_ttl_ms = 5000 }

abbrev drawn_again : Random
drawn_again = record { token = "ee"; refresh_token = "ff"; key = "" }

token_entry-refresh_grant_example :
    (s1 : Store) × (refresh_grant ones plain hashed "bb" terms drawn 100 phones
      ≡ some (renewal ones plain hashed terms drawn 100 "k1" first_phone, s1))
    × ((token_entry ones plain hashed "cc" 200 s1).0 ≡ some (caller_of "k1" first_phone))
    × ((token_entry ones plain hashed "aa" 200 s1).0 ≡ none)
    × (refresh_grant ones plain hashed "bb" terms drawn_again 200 s1 ≡ none)
unfolding find_hash find_refresh erase
token_entry-refresh_grant_example =
    token_entry-refresh_grant ones plain hashed "bb" "aa" terms terms drawn drawn_again 100 200
      phones "k1" first_phone (tt, tt) refl refl refl refl refl refl refl refl refl refl refl

abbrev empty_pairing : Pairing
empty_pairing = reset_state

exchange_code-create_code_example :
    (i : Issued) × (p1 : Pairing) × (s1 : Store) × (exchange_code ones plain hashed "123456"
        (some "phone")
        "10.0.0.7"
        drawn
        2000
        ((create_code ("123456" ∷ []) none 1000 empty_pairing).1, phones)
      ≡ some (paired i, (p1, s1)))
    × ((token_entry ones plain hashed i.token 700000 s1).0
        ≡ some (record { key = i.key; name = i.name; kind = "device"; scopes = none }))
    × (lookup "123456" p1.codes ≡ none)
unfolding create_code digits keep_chars is_rate_limited prune find_hash lookup
exchange_code-create_code_example =
    exchange_code-create_code ones ones_inj plain hashed ("123456" ∷ []) none (some "phone")
      "123456" "10.0.0.7" drawn 1000 2000 700000 empty_pairing phones refl refl refl refl refl refl
      refl refl

abbrev pending : Pairing
pending = record {
  codes = ("123456", new_code 1000 none) ∷ [];
  rates = [];
  global = record { count = 0; start = 0 };
}

abbrev attempts : List Try
attempts =
    record { at = 70000; code = "000000"; ip = "10.0.0.7" }
    ∷ record { at = 70001; code = "123-456"; ip = "10.0.0.8" }
    ∷ record { at = 70002; code = "123456"; ip = "10.0.0.9" }
    ∷ []

guess_bound_example : wrong (answers attempts pending) ≤ 2 * global_failure_limit
guess_bound_example =
    guess_bound 70000 attempts pending
      ((omega arith, omega arith), ((omega arith, omega arith), ((omega arith, omega arith), tt)))

spent_once_example :
    Distinct (spent attempts pending)
    × All (λ c. is_some (lookup c pending.codes) ≡ true) (spent attempts pending)
spent_once_example = spent_once attempts pending

granted_to_one : spent attempts pending ≡ "123456" ∷ []
unfolding spent redeem_code digits keep_chars is_rate_limited spend lookup erase record_failure
    insert count_failure
granted_to_one = refl
