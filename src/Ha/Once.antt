-- ===== src/Ha/Once.antt =====
-- Which commands of the table fleet_commands (dashboard/lib/ha.js) are queued only once.
use actions_runners.Prelude.{
  Bool, Bool-cases, List, Option, String, [], ap, arith, inl, inr, none, refl, some, str_eq_refl,
  sym, ℕ, ◌++◌, ◌+◌, ◌∙◌, ◌∷◌, ◌≡◌,
}
use actions_runners.Ha.Queue.{
  Command, Queue, change_one, claim, conflict, deliver, expire, has_key, insert_command, insert_row,
  is_among, is_sent_id, key_id, pending_commands, reset_expired, update,
}
use actions_runners.Ha.Trace.{Event, claimed, completed, marked, queued, released, reset, run, step}

module _ (k : String) (p : Command → Bool) (f : Command → Command) where
  -- An update that keeps ids and keys keeps the row of a key.
  key_id-update :
      ((c : Command) → (f c).id ≡ c.id)
      → ((c : Command) → (f c).idempotency_key ≡ c.idempotency_key)
      → (cs : List Command) → key_id k (update p f cs) ≡ key_id k cs
  unfolding key_id update
  key_id-update same key [] = refl
  key_id-update same key (c ∷ cs) = elim (Bool-cases (p c)) [
    | inl e ↦ rw (e, key c, same c, key_id-update same key cs) refl
    | inr e ↦ rw (e, key_id-update same key cs) refl
  ]

key_id-append :
    (k : String) (cs ds : List Command) {i : ℕ}
    → key_id k cs ≡ some i
    → key_id k (cs ++ ds) ≡ some i
unfolding key_id
key_id-append k [] ds e = absurd (cc e)
key_id-append k (c ∷ cs) ds {i} e = elim (Bool-cases (has_key k c)) [
  | inl h ↦ rw h (rw h at e)
  | inr h ↦ rw h (key_id-append k cs ds {i = i} (rw h at e))
]

key_id-new :
    (k : String) (cs : List Command) (c : Command)
    → key_id k cs ≡ none
    → c.idempotency_key ≡ some k
    → key_id k (cs ++ (c ∷ [])) ≡ some c.id
unfolding key_id
key_id-new k [] c e h = rw (h, str_eq_refl k) refl
key_id-new k (d ∷ cs) c e h = elim (Bool-cases (has_key k d)) [
  | inl g ↦ absurd (cc (rw g at e))
  | inr g ↦ rw g (key_id-new k cs c (rw g at e) h)
]

insert_row-key :
    (k : String) (o : Option ℕ) (c : Command) (q : Queue) {i : ℕ}
    → key_id k q.commands ≡ some i
    → key_id k (insert_row o c q).1.commands ≡ some i
unfolding insert_row
insert_row-key k (some j) c q e = e
insert_row-key k none c q {i} e = key_id-append k q.commands (c ∷ []) {i = i} e

expire_key : (most now : ℕ) (c : Command) → (expire most now c).idempotency_key ≡ c.idempotency_key
expire_key most now c = ground arith

expire_same : (most now : ℕ) (c : Command) → (expire most now c).id ≡ c.id
expire_same most now c = ground arith

step-key :
    (k : String) (e : Event) (q : Queue) {i : ℕ}
    → key_id k q.commands ≡ some i
    → key_id k (step e q).commands ≡ some i
unfolding step insert_command claim change_one reset_expired
step-key k (queued host action args key ts) q {i} h =
    insert_row-key k (conflict key q.commands) _ q {i = i} h
step-key k (claimed host ts limit) q h =
    key_id-update k (is_among (pending_commands host limit q)) (deliver ts) (λ c. refl) (λ c. refl)
      q.commands
    ∙ h
step-key k (released i) q h =
    key_id-update k (is_sent_id i) _ (λ c. refl) (λ c. refl) q.commands ∙ h
step-key k (marked i ts) q h = key_id-update k _ (deliver ts) (λ c. refl) (λ c. refl) q.commands ∙ h
step-key k (completed i ok result ts) q h =
    key_id-update k (is_sent_id i) _ (λ c. refl) (λ c. refl) q.commands ∙ h
step-key k (reset before most now) q h =
    key_id-update k _ (expire most now) (expire_same most now) (expire_key most now) q.commands ∙ h

run-key :
    (k : String) (es : List Event) (q : Queue) {i : ℕ}
    → key_id k q.commands ≡ some i
    → key_id k (run es q).commands ≡ some i
unfolding run
run-key k [] q h = h
run-key k (e ∷ es) q {i} h = run-key k es (step e q) {i = i} (step-key k e q {i = i} h)

insert_row-kept :
    (k : String) (o : Option ℕ) (c : Command) (q : Queue)
    → o ≡ key_id k q.commands
    → c.id ≡ q.next_id
    → c.idempotency_key ≡ some k
    → key_id k (insert_row o c q).1.commands ≡ some (insert_row o c q).0
unfolding insert_row
insert_row-kept k (some i) c q e s h = sym e
insert_row-kept k none c q e s h = key_id-new k q.commands c (sym e) h ∙ ap some s

-- A command that is queued again with the key of one queued before, whatever statements came between and
-- whatever has become of the first, gets the first one's id and adds no row.
pub queue_once :
    (k : String) (host action args host2 action2 args2 : String) (ts ts2 : ℕ) (es : List Event)
    (q : Queue)
    → let first = insert_command host action args (some k) ts q in
      let later = run es first.1 in
      insert_command host2 action2 args2 (some k) ts2 later
      ≡ (first.0, record later { next_id = later.next_id + 1 })
unfolding insert_command insert_row
queue_once k host action args host2 action2 args2 ts ts2 es q =
    let first = insert_command host action args (some k) ts q in
    let kept =
      run-key k es first.1 {i = first.0}
        (insert_row-kept k (key_id k q.commands) _ q refl refl refl) in
    rw kept refl
