-- ===== src/Confirm/Issued.antt =====
-- A confirmation that is issued and used (dashboard/lib/confirm.js).
use actions_runners.Prelude.{
  List, String, [], arith, erase, false, filter, insert, leb, length, length-insert, lookup,
  lookup-erase, lookup-insert, none, not, refl, some, str_eq_refl, ℕ, ◌+◌, ◌<◌, ◌∙◌, ◌∷◌, ◌≡◌, ◌≤◌,
}
use actions_runners.Confirm.{
  Held, Request, canonical, confirm_ttl_ms, consume_confirmation, drop_oldest, given, held_for,
  issue_confirmation, max_pending, purge, unknown,
}

drop_oldest_lt : (p : List (String × Held)) → length (drop_oldest p) < max_pending
unfolding drop_oldest
drop_oldest_lt [] = omega arith
drop_oldest_lt (e ∷ es) = ground (arith, drop_oldest_lt es)

-- Whatever is pending, a token that a preview issued is, as a text, accepted for the same caller, action
-- and arguments until five minutes have passed, and a second use, of whatever request and at whatever
-- time, is refused; and no preview leaves more than 500 pending.
consume-issue :
    (quoted : String → String) (token : String) (r again : Request) (now then later : ℕ)
    (p : List (String × Held))
    → then < now + confirm_ttl_ms
    → let q = issue_confirmation quoted token r now p in
      let used = consume_confirmation quoted (given token) r then q in
      (used.0 ≡ none)
      × ((consume_confirmation quoted (given token) again later used.1).0 ≡ some unknown)
      × (length q ≤ max_pending)
unfolding issue_confirmation consume_confirmation purge
consume-issue quoted token r again now then later p l =
    let live = drop_oldest (filter (λ e. not (leb e.1.expires now)) p) in
    let e = held_for quoted r now in
    let found : lookup token (insert token e live) ≡ some e =
      lookup-insert token token e live ∙ rw (str_eq_refl token) refl in
    let open_yet : leb (now + confirm_ttl_ms) then ≡ false = ground arith in
    let gone : lookup token (erase token (insert token e live)) ≡ none =
      lookup-erase token token (insert token e live) ∙ rw (str_eq_refl token) refl in
    let few = drop_oldest_lt (filter (λ e. not (leb e.1.expires now)) p) in
    rw
      (
        found,
        open_yet,
        str_eq_refl r.caller,
        str_eq_refl r.action,
        str_eq_refl (canonical quoted r.args),
        gone,
      )
      (refl, refl, omega (arith, few, length-insert token e live))
