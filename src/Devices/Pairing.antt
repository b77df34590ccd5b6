-- ===== src/Devices/Pairing.antt =====
-- Pairing codes and the limits on guessing them (dashboard/lib/devices.js).
use actions_runners.Prelude.{
  Bool, List, Option, String, [], any, erase, false, filter, find?, if◌then◌else◌, insert, is_some,
  keep_chars, leb, length, lookup, ltb, none, not, or_else, some, str_eq, ℕ, ◌&&◌, ◌+◌, ◌||◌, ◌∷◌,
}

-- An entry of `pendingCodes`; `scopes` is null for every scope.
pub record Code : Type 0 where
  pub expires : ℕ
  pub used : Bool
  pub scopes : Option (List String)

-- An entry of `rateLimitState`, and `globalFailures`.
pub record Window : Type 0 where
  pub count : ℕ
  pub start : ℕ

-- The in-memory state.
pub record Pairing : Type 0 where
  pub codes : List (String × Code)
  pub rates : List (String × Window)
  pub global : Window

-- `resetPairingState`
abbrev pub reset_state : Pairing
reset_state = record { codes = []; rates = []; global = record { count = 0; start = 0 } }

abbrev pub code_ttl_ms : ℕ
code_ttl_ms = 300000

abbrev pub rate_window_ms : ℕ
rate_window_ms = 60000

abbrev pub rate_limit : ℕ
rate_limit = 5

abbrev pub global_failure_limit : ℕ
global_failure_limit = 20

-- `now - windowStart > RATE_WINDOW_MS`
abbrev pub is_past : ℕ → Window → Bool
is_past now w = ltb (w.start + rate_window_ms) now

-- The loop that draws codes, of which `draws` are the ones to come.
abbrev pub free_code : List String → List (String × Code) → Option String
free_code draws codes = find? (λ c. not (is_some (lookup c codes))) draws

-- What is kept with a new code.
abbrev pub new_code : ℕ → Option (List String) → Code
new_code now scopes = record { expires = now + code_ttl_ms; used = false; scopes = scopes }

abbrev pub keep_code : Option String → Code → Pairing → Option String × Pairing
keep_code none c p = (none, p)
keep_code (some code) c p = (some code, record p { codes = insert code c p.codes })

-- `createPairingCode`; `none` wants another draw.
unfoldable pub create_code :
    List String → Option (List String) → ℕ → Pairing → Option String × Pairing
create_code draws scopes now p =
    let live = filter (λ e. not (ltb e.1.expires now)) p.codes in
    keep_code (free_code draws live) (new_code now scopes) (record p { codes = live })

-- `recordGlobalFailure`: the window, and the codes.
abbrev pub next_window : ℕ → Window → Window
next_window now w =
    if is_past now w then record { count = 1; start = now } else record w { count = w.count + 1 }

abbrev pub burn : Window → List (String × Code) → List (String × Code)
burn w codes = if leb global_failure_limit w.count then [] else codes

-- `globallyLocked`
abbrev pub globally_locked : ℕ → Window → Bool
globally_locked now w = not (is_past now w) && leb global_failure_limit w.count

-- `isRateLimited`, which drops an entry whose window is past.
unfoldable pub is_rate_limited : ℕ → String → List (String × Window) → Bool × List (String × Window)
is_rate_limited now ip rates = elim (lookup ip rates) [
  | none ↦ (false, rates)
  | some w ↦ if is_past now w then (false, erase ip rates) else (leb rate_limit w.count, rates)
]

-- The clients' part of `recordFailure`.
unfoldable pub count_failure : ℕ → String → List (String × Window) → List (String × Window)
count_failure now ip rates =
    let kept =
      if ltb 1000 (length rates) then filter (λ e. not (is_past now e.1)) rates else rates in
    insert ip (next_window now (or_else (lookup ip kept) (record { count = 0; start = now }))) kept

-- `recordFailure`
unfoldable pub record_failure : ℕ → String → Pairing → Pairing
unfolding count_failure
record_failure now ip p =
    let global = next_window now p.global in
    record { codes = burn global p.codes; rates = count_failure now ip p.rates; global = global }

-- `.replace(/\D/g, '')`
abbrev pub is_digit : String → Bool
is_digit c = any (str_eq c) ("0" ∷ "1" ∷ "2" ∷ "3" ∷ "4" ∷ "5" ∷ "6" ∷ "7" ∷ "8" ∷ "9" ∷ [])

unfoldable pub digits : String → String
unfolding keep_chars
digits s = keep_chars is_digit s

pub data Answer : Type 0 where
  limited invalid : Answer
  granted : Option (List String) → Answer

abbrev pub is_spendable : ℕ → Option Code → Bool
is_spendable now none = false
is_spendable now (some c) = not (c.used || ltb c.expires now)

abbrev pub scopes_of : Option Code → Option (List String)
scopes_of none = none
scopes_of (some c) = c.scopes

-- The rest of `redeemCode` when no limit is met.
unfoldable pub spend : ℕ → String → String → Pairing → Answer × Pairing
unfolding record_failure
spend now code ip p =
    let entry = lookup code p.codes in
    if is_spendable now entry
    then (
      granted (scopes_of entry),
      record p { codes = erase code p.codes; rates = erase ip p.rates },
    )
    else (invalid, record_failure now ip p)

-- `redeemCode`
unfoldable pub redeem_code : ℕ → String → String → Pairing → Answer × Pairing
unfolding spend is_rate_limited digits
redeem_code now code ip p =
    let r = is_rate_limited now ip p.rates in
    let q = record p { rates = r.1 } in
    if r.0 || globally_locked now q.global then (limited, q) else spend now (digits code) ip q
