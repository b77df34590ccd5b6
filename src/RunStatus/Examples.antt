-- ===== src/RunStatus/Examples.antt =====
-- Three hooks that ask of one run, a fetch that is refused, and the theorem on the cache at them.
use actions_runners.Prelude.{All, Distinct, List, [], erase, insert, lookup, refl, some, ◌∷◌, ◌≡◌}
use actions_runners.RunStatus.{Value, pending}
use actions_runners.RunStatus.Single.{Event, asks, fails, history, in_flight_single, returns, start}

abbrev done : Value
done = record { status = some "completed"; conclusion = some "success" }

-- The second call shares the first one's fetch; the third reads its value.
abbrev three_hooks : List Event
three_hooks =
    asks 0 "o/app#1"
    ∷ asks 5 "o/app#1"
    ∷ asks 6 "o/app#2"
    ∷ returns 7 "o/app#1" done
    ∷ asks 8 "o/app#1"
    ∷ fails "o/app#2"
    ∷ asks 30000 "o/app#1"
    ∷ []

flying_again : (history 20000 three_hooks start).flying ≡ "o/app#1" ∷ []
unfolding history lookup insert erase
flying_again = refl

in_flight_single_example :
    Distinct (history 20000 three_hooks start).flying
    × All
        (λ k. lookup k (history 20000 three_hooks start).cache ≡ some pending)
        (history 20000 three_hooks start).flying
in_flight_single_example = in_flight_single 20000 three_hooks
