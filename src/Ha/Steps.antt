-- ===== src/Ha/Steps.antt =====
-- The statements of dashboard/lib/ha.js keep the table fleet_commands well formed.
use actions_runners.Prelude.{
  Bool, Bool-cases, List, Option, String, [], arith, false, if◌then◌else◌, inl, inr, leb, ltb,
  ltb→lt, none, refl, some, str_eq, true, ℕ, ◌&&◌, ◌-◌, ◌∷◌, ◌≡◌,
}
use actions_runners.Ha.Queue.{
  Command, Queue, Status, change_one, claim, conflict, deliver, done, expire, failed, has_id,
  insert_command, is_among, is_sent, is_sent_id, is_waiting, pending, pending_commands,
  reset_expired, sent,
}
use actions_runners.Ha.Trace.{Event, claimed, completed, marked, queued, released, reset, run, step}
use actions_runners.Ha.Invariant.{
  IsWellFormed, Sane, Timed, chosen_claimable, insert-IsWellFormed, update-IsWellFormed,
}

deliver-Sane :
    (ts : ℕ) (c : Command)
    → is_waiting c.status ≡ true
    → ltb c.attempts 3 ≡ true
    → Sane c
    → Sane (deliver ts c)
deliver-Sane ts c w a h = elim_waiting c.status w h.1
  where
    elim_waiting : (s : Status) → is_waiting s ≡ true → Timed s c → Sane (deliver ts c)
    elim_waiting pending e t = (omega (arith, ltb→lt c.attempts 3 a), (omega arith, refl, t))
    elim_waiting sent e t = absurd (cc e)
    elim_waiting done e t = absurd (cc e)
    elim_waiting failed e t = absurd (cc e)

sent-Timed : (c : Command) → is_sent c.status ≡ true → Timed c.status c → Timed sent c
sent-Timed c w h = by_status c.status w h
  where
    by_status : (s : Status) → is_sent s ≡ true → Timed s c → Timed sent c
    by_status sent e t = t
    by_status pending e t = absurd (cc e)
    by_status done e t = absurd (cc e)
    by_status failed e t = absurd (cc e)

expire-Sane :
    (most now : ℕ) (c : Command) → is_sent c.status ≡ true → Sane c → Sane (expire most now c)
expire-Sane most now c w h =
    let t = sent-Timed c w h.1 in
    elim (Bool-cases (leb most c.attempts)) [
      | inl e ↦ rw e (h.0, (t.0, refl))
      | inr e ↦ rw e (h.0, t.2)
    ]

released-Sane :
    (c : Command)
    → is_sent c.status ≡ true
    → Sane c
    → Sane (record c { status = pending; started_at = none; attempts = c.attempts - 1 })
released-Sane c w h = let t = sent-Timed c w h.1 in (omega (arith, h.0), t.2)

completed-Sane :
    (ok : Bool) (result : Option String) (ts : ℕ) (c : Command)
    → is_sent c.status ≡ true
    → Sane c
    → Sane
        (record c { completed_at = some ts; status = if ok then done else failed; result = result })
completed-Sane true result ts c w h = let t = sent-Timed c w h.1 in (h.0, (t.0, refl))
completed-Sane false result ts c w h = let t = sent-Timed c w h.1 in (h.0, (t.0, refl))

middle : (a b d : Bool) → (a && b && d) ≡ true → b ≡ true
middle a b d h = ground arith

last : (a b d : Bool) → (a && b && d) ≡ true → d ≡ true
last a b d h = ground arith

left : (a b : Bool) → (a && b) ≡ true → a ≡ true
left a b h = ground arith

expire_id : (most now : ℕ) (c : Command) → (expire most now c).id ≡ c.id
expire_id most now c = ground arith

sent_id_is_sent : (i : ℕ) (c : Command) → is_sent_id i c ≡ true → is_sent c.status ≡ true
sent_id_is_sent i c e = ground arith

-- A statement keeps the table well formed.
pub step-IsWellFormed : (e : Event) (q : Queue) → IsWellFormed q → IsWellFormed (step e q)
unfolding step claim change_one reset_expired insert_command
step-IsWellFormed (queued host action args key ts) q h =
    insert-IsWellFormed (conflict key q.commands) _ q refl (omega arith, refl) h
step-IsWellFormed (claimed host ts limit) q h =
    update-IsWellFormed (is_among (pending_commands host limit q)) (deliver ts) (λ c. refl) q
      (λ c i e k.
        let t = chosen_claimable host limit q c h i e in
        deliver-Sane ts c (middle (str_eq c.host_id host) _ _ t)
          (last (str_eq c.host_id host) _ _ t) k)
      h
step-IsWellFormed (released i) q h =
    update-IsWellFormed (is_sent_id i) _ (λ c. refl) q
      (λ c j e k. released-Sane c (sent_id_is_sent i c e) k) h
step-IsWellFormed (marked i ts) q h =
    update-IsWellFormed _ (deliver ts) (λ c. refl) q
      (λ c j e k. deliver-Sane ts c (middle (has_id i c) _ _ e) (last (has_id i c) _ _ e) k) h
step-IsWellFormed (completed i ok result ts) q h =
    update-IsWellFormed (is_sent_id i) _ (λ c. refl) q
      (λ c j e k. completed-Sane ok result ts c (sent_id_is_sent i c e) k) h
step-IsWellFormed (reset before most now) q h =
    update-IsWellFormed _ (expire most now) (λ c. expire_id most now c) q
      (λ c j e k. expire-Sane most now c (left (is_sent c.status) _ e) k) h

-- Any statements, whoever sends them, leave a well-formed table well formed: the ids of the rows rise; a
-- row has at most three attempts; a sent one was started at a known time and is not completed; one that is done
-- or failed was started and has a time of completion; and one that waits has none.
pub run-IsWellFormed : (es : List Event) (q : Queue) → IsWellFormed q → IsWellFormed (run es q)
unfolding run
run-IsWellFormed [] q h = h
run-IsWellFormed (e ∷ es) q h = run-IsWellFormed es (step e q) (step-IsWellFormed e q h)
