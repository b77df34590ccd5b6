-- ===== src/RunStatus/Single.antt =====
-- How often the cache of dashboard/lib/run-status.js asks GitHub: histories of calls and of fetches
-- that settle.
use mathlib.Core.Path.{sym, subst, ◌∙◌}
use actions_runners.Prelude.{
  All, All-In, All-of, Bool-cases, Distinct, In, List, Option-cases, String, [], any, arith, erase,
  false, filter, if◌then◌else◌, inl, inr, insert, leb, length, lookup, lookup-erase, lookup-insert,
  ltb, not, refl, some, str_eq, str_eq_iff, str_eq_refl, str_eq_sym, ℕ, ◌+◌, ◌∷◌, ◌≡◌, ◌≢◌,
}
use actions_runners.RunStatus.{
  Answer, Cache, Entry, Value, ask, cached, expired, failed, fetched, fetching, known, max_entries,
  pending, prune, shared,
}

-- A fetch settles only while it is in flight; another such event changes nothing.
pub data Event : Type 0 where
  asks : ℕ → String → Event
  returns : ℕ → String → Value → Event
  fails : String → Event

-- The cache, and the keys of the fetches in flight, one for each fetch.
pub record State : Type 0 where
  pub cache : Cache
  pub flying : List String

abbrev pub start : State
start = record { cache = []; flying = [] }

unfoldable pub landed : String → List String → List String
landed key [] = []
landed key (k ∷ ks) = if str_eq k key then ks else k ∷ landed key ks

abbrev asked : String → List String → Answer × Cache → State
asked key flying (fetching, c) = record { cache = c; flying = key ∷ flying }
asked key flying (shared, c) = record { cache = c; flying = flying }
asked key flying (cached v, c) = record { cache = c; flying = flying }

unfoldable pub step : ℕ → Event → State → State
unfolding ask fetched failed landed
step ttl (asks now key) s = asked key s.flying (ask ttl now key s.cache)
step ttl (returns now key v) s =
    if any (λ k. str_eq k key) s.flying
    then record { cache = fetched ttl now key v s.cache; flying = landed key s.flying }
    else s
step ttl (fails key) s =
    if any (λ k. str_eq k key) s.flying
    then record { cache = failed key s.cache; flying = landed key s.flying }
    else s

unfoldable pub history : ℕ → List Event → State → State
unfolding step
history ttl [] s = s
history ttl (e ∷ es) s = history ttl es (step ttl e s)

abbrev Waiting : Cache → String → Type 0
Waiting c k = lookup k c ≡ some pending

abbrev Sound : State → Type 0
Sound s = Distinct s.flying × All (Waiting s.cache) s.flying

-- Pruning keeps what is in flight.
prune-Waiting : (ttl now : ℕ) (c : Cache) (k : String) → Waiting c k → Waiting (prune ttl now c) k
unfolding prune lookup
prune-Waiting ttl now c k h = elim (Bool-cases (leb (length c) max_entries)) [
  | inl e ↦ rw e h
  | inr e ↦ rw e (kept c h)
]
  where
    kept : (c : Cache) → Waiting c k → Waiting (filter (λ e. not (expired ttl now e.1)) c) k
    kept [] h = h
    kept ((j, pending) ∷ c) h = ground (arith, kept c)
    kept ((j, known at v) ∷ c) h = ground (arith, kept c)

-- The fetches of other keys stay in flight.
landed-All :
    (P : String → Type 0) (key : String) (ks : List String) → All P ks → All P (landed key ks)
unfolding landed
landed-All P key [] h = tt
landed-All P key (k ∷ ks) h = elim (Bool-cases (str_eq k key)) [
  | inl e ↦ rw e h.1
  | inr e ↦ rw e (h.0, landed-All P key ks h.1)
]

landed-Distinct : (key : String) (ks : List String) → Distinct ks → Distinct (landed key ks)
unfolding landed
landed-Distinct key [] d = tt
landed-Distinct key (k ∷ ks) d = elim (Bool-cases (str_eq k key)) [
  | inl e ↦ rw e d.1
  | inr e ↦ rw e (landed-All (λ y. str_eq y k ≡ false) key ks d.0, landed-Distinct key ks d.1)
]

landed-other :
    (key : String) (ks : List String)
    → Distinct ks
    → All (λ k. str_eq k key ≡ false) (landed key ks)
unfolding landed
landed-other key [] d = tt
landed-other key (k ∷ ks) d = elim (Bool-cases (str_eq k key)) [
  | inl e ↦ rw (e, sym ((str_eq_iff k key).0 e)) d.0
  | inr e ↦ rw e (e, landed-other key ks d.1)
]

insert-Waiting :
    (key : String) (e : Entry) (c : Cache) (k : String)
    → str_eq k key ≡ false
    → Waiting c k
    → Waiting (insert key e c) k
insert-Waiting key e c k n h = rw (lookup-insert key k e c, str_eq_sym k key n) h

erase-Waiting :
    (key : String) (c : Cache) (k : String)
    → str_eq k key ≡ false
    → Waiting c k
    → Waiting (erase key c) k
erase-Waiting key c k n h = rw (lookup-erase key k c, str_eq_sym k key n) h

-- A fetch that starts is the only one of its key.
start-Sound :
    (key : String) (s : State)
    → Sound s
    → lookup key s.cache ≢ some pending
    → Sound (record { cache = insert key pending s.cache; flying = key ∷ s.flying })
start-Sound key s (d, w) n =
    let other : (k : String) → In k s.flying → str_eq k key ≡ false = λ k i.
      elim (Bool-cases (str_eq k key)) [
        | inl e ↦
            let q = All-In (Waiting s.cache) k s.flying w i in
            absurd (n (subst (Waiting s.cache) ((str_eq_iff k key).0 e) q))
        | inr e ↦ e
      ] in
    (
      (All-of _ s.flying other, d),
      (
        rw (lookup-insert key key pending s.cache, str_eq_refl key) refl,
        All-of _ s.flying (λ k i.
            insert-Waiting key pending s.cache k (other k i)
              (All-In (Waiting s.cache) k s.flying w i)),
      ),
    )

land-Sound :
    (key : String) (s : State) (c : Cache)
    → Sound s
    → ((k : String) → str_eq k key ≡ false → Waiting s.cache k → Waiting c k)
    → Sound (record { cache = c; flying = landed key s.flying })
land-Sound key s c (d, w) keep =
    let ks = landed key s.flying in
    (
      landed-Distinct key s.flying d,
      All-of _ ks (λ k i.
          keep k (All-In (λ k. str_eq k key ≡ false) k ks (landed-other key s.flying d) i)
            (All-In (Waiting s.cache) k ks (landed-All (Waiting s.cache) key s.flying w) i)),
    )

ask-Sound :
    (ttl now : ℕ) (key : String) (s : State) (e : Entry)
    → lookup key s.cache ≡ some e
    → Sound s
    → Sound (asked key s.flying (ask ttl now key s.cache))
unfolding ask
ask-Sound ttl now key s pending q h = rw (q, ask) h
ask-Sound ttl now key s (known at v) q h = elim (Bool-cases (ltb now (at + ttl))) [
  | inl e ↦ rw (q, ask, e) h
  | inr e ↦ rw (q, ask, e) (start-Sound key s h (λ p. cc (sym q ∙ p)))
]

step-Sound : (ttl : ℕ) (e : Event) (s : State) → Sound s → Sound (step ttl e s)
unfolding step
step-Sound ttl (asks now key) s h = elim (Option-cases (lookup key s.cache)) [
  | inl n ↦ rw (n, ask) (start-Sound key s h (λ e. cc (sym n ∙ e)))
  | inr (e, n) ↦ ask-Sound ttl now key s e n h
]
step-Sound ttl (returns now key v) s h = elim (Bool-cases (any (λ k. str_eq k key) s.flying)) [
  | inl e ↦ rw e (
      unfold fetched in
      land-Sound key s _ h
        (λ k n w. prune-Waiting ttl now _ k (insert-Waiting key (known now v) s.cache k n w)))
  | inr e ↦ rw e h
]
step-Sound ttl (fails key) s h = elim (Bool-cases (any (λ k. str_eq k key) s.flying)) [
  | inl e ↦ rw e (unfold failed in land-Sound key s _ h (λ k n w. erase-Waiting key s.cache k n w))
  | inr e ↦ rw e h
]

history-Sound : (ttl : ℕ) (es : List Event) (s : State) → Sound s → Sound (history ttl es s)
unfolding history
history-Sound ttl [] s h = h
history-Sound ttl (e ∷ es) s h = history-Sound ttl es (step ttl e s) (step-Sound ttl e s h)

-- Whatever calls are made and in whatever order the fetches settle, no run has two fetches in flight,
-- and the entry of each fetch in flight waits for it: no other callback and no pruning removed it.
pub in_flight_single :
    (ttl : ℕ) (es : List Event)
    → Distinct (history ttl es start).flying
      × All
          (λ k. lookup k (history ttl es start).cache ≡ some pending)
          (history ttl es start).flying
in_flight_single ttl es = history-Sound ttl es start (tt, tt)
