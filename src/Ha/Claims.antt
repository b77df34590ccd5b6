-- ===== src/Ha/Claims.antt =====
-- What a claim on the table fleet_commands (dashboard/lib/ha.js) hands out.
use actions_runners.Prelude.{
  All, All-of, Bool, In, In-filter, In-map, In-sort, String, any, ap, arith, if◌then◌else◌, ltb,
  refl, str_eq, sym, true, ℕ, ◌&&◌, ◌==◌, ◌∙◌, ◌≡◌, ◌≢◌,
}
use actions_runners.Ha.Queue.{
  Command, Queue, claim, deliver, is_among, is_claimable, is_waiting, pending_commands, update,
}
use actions_runners.Ha.Trace.{claimed, step}
use actions_runners.Ha.Invariant.{IsWellFormed, chosen_claimable, same_row, update_id}
use actions_runners.Ha.Steps.{step-IsWellFormed}

-- In a well-formed table, a command that a claim hands out waited for its host with less than three
-- attempts; it is handed out, and stands in the table, as sent at the time of the claim with one attempt
-- more.
claim_from :
    (host : String) (ts limit : ℕ) (q : Queue) (c : Command)
    → IsWellFormed q
    → In c (claim host ts limit q).0
    → (d : Command) × In d q.commands
      × (is_claimable host d ≡ true)
      × (c ≡ deliver ts d)
      × In c (claim host ts limit q).1.commands
unfolding claim update
claim_from host ts limit q c h i =
    let chosen = is_among (pending_commands host limit q) in
    let (j, t) =
      In-filter chosen c (update chosen (deliver ts) q.commands)
        (In-sort (λ a b. ltb a.id b.id) c _ i) in
    let (d, m, e) = In-map (λ c. if chosen c then deliver ts c else c) c q.commands j in
    let same : c.id ≡ d.id = ap (λ r. r.id) e ∙ update_id chosen (deliver ts) (λ r. refl) d in
    let k : chosen d ≡ true =
      sym (ap (λ n. any (λ r. n == r.id) (pending_commands host limit q)) same) ∙ t in
    (d, m, chosen_claimable host limit q d h m k, rw k at e, j)

waits : (a b d : Bool) → (a && b && d) ≡ true → b ≡ true
waits a b d h = ground arith

apart_rows :
    (host : String) (ts limit ts2 limit2 : ℕ) (q : Queue) (c d : Command)
    → IsWellFormed q
    → In c (claim host ts limit q).0
    → In d (claim host ts2 limit2 (claim host ts limit q).1).0
    → c.id ≢ d.id
unfolding step
apart_rows host ts limit ts2 limit2 q c d h i j same =
    let after = (claim host ts limit q).1 in
    let good : IsWellFormed after = step-IsWellFormed (claimed host ts limit) q h in
    let (c0, m, g, e, n) = claim_from host ts limit q c h i in
    let (d0, m2, g2, e2, n2) = claim_from host ts2 limit2 after d good j in
    let one : c ≡ d0 =
      same_row after.commands after.next_id c d0 good.rising n m2 (same ∙ ap (λ r. r.id) e2) in
    let waiting : is_waiting c.status ≡ true =
      ap (λ r. is_waiting r.status) one ∙ waits (str_eq d0.host_id host) _ _ g2 in
    cc waiting

-- Two claims for a host, one after the other on a well-formed table, hand out no command twice.
pub claims_apart :
    (host : String) (ts limit ts2 limit2 : ℕ) (q : Queue)
    → IsWellFormed q
    → let first = claim host ts limit q in
      All (λ c. All (λ d. c.id ≢ d.id) (claim host ts2 limit2 first.1).0) first.0
claims_apart host ts limit ts2 limit2 q h = All-of _ (claim host ts limit q).0 (λ c i.
    All-of _ (claim host ts2 limit2 (claim host ts limit q).1).0
      (λ d j. apart_rows host ts limit ts2 limit2 q c d h i j))
