-- ===== src/Confirm.antt =====
-- The confirmations of actions (dashboard/lib/confirm.js). What `randomBytes` returns is an input, and
-- `quoted` stands for `JSON.stringify` of a key; a scalar is given by its text.
use Prim.Native.String.{◌++◌ as text_append}
pub mod Once
mod Issued
mod Examples
use actions_runners.Prelude.{
  Bool, List, Option, String, [], erase, filter, if◌then◌else◌, insert, is_some, leb, length,
  lookup, map, none, not, some, sort, str_eq, str_lt, ℕ, ◌+◌, ◌||◌, ◌∷◌,
}

mutual
  pub data Json : Type 0 where
    scalar : String → Json
    array : Items → Json
    object : Fields → Json

  pub data Items : Type 0 where
    nil : Items
    cons : Json → Items → Items

  pub data Fields : Type 0 where
    end : Fields
    field : String → Json → Fields → Fields

-- `join(',')`
abbrev pub join : List String → String
join [] = ""
join (s ∷ []) = s
join (s ∷ t ∷ ts) = text_append s (text_append "," (join (t ∷ ts)))

abbrev pub by_key : String × String → String × String → Bool
by_key a b = str_lt a.0 b.0

module _ (quoted : String → String) where
  abbrev pub entry_of : String × String → String
  entry_of e = text_append (quoted e.0) (text_append ":" e.1)

  unfoldable mutual
    -- `canonical`
    pub canonical : Json → String
    canonical (scalar s) = s
    canonical (array xs) = text_append "[" (text_append (join (canonical_items xs)) "]")
    canonical (object fs) =
        text_append "{" (text_append (join (map entry_of (sort by_key (canonical_fields fs)))) "}")

    pub canonical_items : Items → List String
    canonical_items nil = []
    canonical_items (cons x xs) = canonical x ∷ canonical_items xs

    pub canonical_fields : Fields → List (String × String)
    canonical_fields end = []
    canonical_fields (field k x fs) = (k, canonical x) ∷ canonical_fields fs

-- `CONFIRM_TTL_MS`, `MAX_PENDING`
abbrev pub confirm_ttl_ms : ℕ
confirm_ttl_ms = 300000

abbrev pub max_pending : ℕ
max_pending = 500

-- What a confirmation is asked for, and for what it is given.
pub record Request : Type 0 where
  pub action : String
  pub args : Json
  pub caller : String

-- An entry of `pending`.
pub record Held : Type 0 where
  pub action : String
  pub args : String
  pub caller : String
  pub expires : ℕ

-- The second loop of `purge`.
unfoldable pub drop_oldest : List (String × Held) → List (String × Held)
drop_oldest [] = []
drop_oldest (e ∷ es) =
    let rest = drop_oldest es in if leb max_pending (length (e ∷ es)) then rest else e ∷ es

-- `purge`
unfoldable pub purge : ℕ → List (String × Held) → List (String × Held)
unfolding drop_oldest
purge now p = drop_oldest (filter (λ e. not (leb e.1.expires now)) p)

-- The token of a second step, as it comes from the body of the request: a text, or another value, given by
-- what `String(token ?? '')` makes of it. The types of the body are not checked, and `["t"]` becomes `t`.
pub data Token : Type 0 where
  given other : String → Token

abbrev pub key_of_token : Token → String
key_of_token (given s) = s
key_of_token (other s) = s

-- `pending.delete(token)`, of the token as it came: only a text is a key.
abbrev pub delete_token : Token → List (String × Held) → List (String × Held)
delete_token (given s) p = erase s p
delete_token (other s) p = p

-- Why a confirmation is refused.
pub data Refusal : Type 0 where
  unknown other_caller other_request : Refusal

module _ (quoted : String → String) where
  abbrev pub held_for : Request → ℕ → Held
  held_for r now = record {
    action = r.action;
    args = canonical quoted r.args;
    caller = r.caller;
    expires = now + confirm_ttl_ms;
  }

  -- `issueConfirmation`, of the token that was drawn.
  unfoldable pub issue_confirmation :
      String → Request → ℕ → List (String × Held) → List (String × Held)
  unfolding purge
  issue_confirmation token r now p = insert token (held_for r now) (purge now p)

  abbrev pub refusal_of : Request → ℕ → Option Held → Option Refusal
  refusal_of r now none = some unknown
  refusal_of r now (some e) =
      if leb e.expires now
      then some unknown
      else if not (str_eq e.caller r.caller)
      then some other_caller
      else if not (str_eq e.action r.action) || not (str_eq e.args (canonical quoted r.args))
      then some other_request
      else none

  -- `consumeConfirmation`: `none` is that it may run.
  unfoldable pub consume_confirmation :
      Token → Request → ℕ → List (String × Held) → Option Refusal × List (String × Held)
  consume_confirmation token r now p =
      let why = refusal_of r now (lookup (key_of_token token) p) in
      if is_some why then (why, p) else (none, delete_token token p)

-- `resetConfirmations`
abbrev pub reset_confirmations : List (String × Held)
reset_confirmations = []
