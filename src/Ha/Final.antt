-- ===== src/Ha/Final.antt =====
-- The rows of the table fleet_commands (dashboard/lib/ha.js) that are done or failed.
use actions_runners.Prelude.{
  Bool, Bool-cases, In, List, Option, String, [], append-In_left, arith, false, inl, inr, ltb, none,
  not, refl, some, str_eq, sym, true, ℕ, ◌&&◌, ◌∷◌, ◌≡◌,
}
use actions_runners.Ha.Queue.{
  Command, Queue, Status, change_one, claim, conflict, deliver, expire, insert_command, insert_row,
  is_among, is_sent, is_sent_id, is_waiting, pending_commands, reset_expired, update,
}
use actions_runners.Ha.Trace.{Event, claimed, completed, marked, queued, released, reset, run, step}
use actions_runners.Ha.Invariant.{IsWellFormed, chosen_claimable}
use actions_runners.Ha.Steps.{step-IsWellFormed}

-- A statement leaves a row alone that it does not change.
update-other :
    (p : Command → Bool) (f : Command → Command) (c : Command) (cs : List Command)
    → In c cs
    → p c ≡ false
    → In c (update p f cs)
unfolding update
update-other p f c (d ∷ cs) (inl e) h = inl (rw (sym e, h) refl)
update-other p f c (d ∷ cs) (inr i) h = inr (update-other p f c cs i h)
update-other p f c [] i h = elim i [ ]

abbrev pub is_final : Status → Bool
is_final s = not (is_waiting s) && not (is_sent s)

insert_row-other :
    (o : Option ℕ) (n c : Command) (q : Queue)
    → In c q.commands
    → In c (insert_row o n q).1.commands
unfolding insert_row
insert_row-other (some i) n c q h = h
insert_row-other none n c q h = append-In_left c q.commands (n ∷ []) h

not_chosen :
    (host : String) (limit : ℕ) (q : Queue) (c : Command)
    → IsWellFormed q
    → In c q.commands
    → is_final c.status ≡ true
    → is_among (pending_commands host limit q) c ≡ false
not_chosen host limit q c h i f = elim (Bool-cases (is_among (pending_commands host limit q) c)) [
  | inl e ↦ absurd (
      clash (str_eq c.host_id host) (is_waiting c.status) (ltb c.attempts 3) (is_sent c.status)
        (chosen_claimable host limit q c h i e) f)
  | inr e ↦ e
]
  where
    clash : (a b d g : Bool) → (a && b && d) ≡ true → (not b && not g) ≡ true → ⊥
    clash a b d g h k = ground arith

step-final :
    (e : Event) (q : Queue) (c : Command)
    → IsWellFormed q
    → is_final c.status ≡ true
    → In c q.commands
    → In c (step e q).commands
unfolding step insert_command claim change_one reset_expired
step-final (queued host action args key ts) q c h f i =
    insert_row-other (conflict key q.commands) _ c q i
step-final (claimed host ts limit) q c h f i =
    update-other (is_among (pending_commands host limit q)) (deliver ts) c q.commands i
      (not_chosen host limit q c h i f)
step-final (released n) q c h f i = update-other (is_sent_id n) _ c q.commands i (ground arith)
step-final (marked n ts) q c h f i = update-other _ (deliver ts) c q.commands i (ground arith)
step-final (completed n ok result ts) q c h f i =
    update-other (is_sent_id n) _ c q.commands i (ground arith)
step-final (reset before most now) q c h f i =
    update-other _ (expire most now) c q.commands i (ground arith)

-- In a well-formed table, a row that is done or failed stays as it is under any statements.
pub run-final :
    (es : List Event) (q : Queue) (c : Command)
    → IsWellFormed q
    → is_final c.status ≡ true
    → In c q.commands
    → In c (run es q).commands
unfolding run
run-final [] q c h f i = i
run-final (e ∷ es) q c h f i =
    run-final es (step e q) c (step-IsWellFormed e q h) f (step-final e q c h f i)
