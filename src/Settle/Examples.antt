-- ===== src/Settle/Examples.antt =====
-- Three stale jobs: one that GitHub no longer has, one that cannot be fetched, and one that is done.
use actions_runners.Prelude.{All, List, [], arith, none, refl, some, true, ◌∷◌, ◌≡◌}
use actions_runners.Settle.Loop.{Ask, broken, got, missing, nothing, settle}
use actions_runners.Settle.Errors.{Handled, settle_all}

abbrev stale : List Ask
stale =
    record { id = 1; repo = "o/app"; remaining = some 900; reply = missing }
    ∷ record { id = 2; repo = "o/app"; remaining = some 899; reply = broken }
    ∷ record { id = 3; repo = "o/app"; remaining = none; reply = got true }
    ∷ []

stale_settled : (settle (some 5) 100 stale nothing).settled ≡ 3 ∷ []
unfolding settle
stale_settled = refl

settle_all_example : All (λ a. Handled a.id a.reply (settle (some 5) 100 stale nothing)) stale
settle_all_example =
    settle_all 5 100 stale (omega arith) ((refl, refl), ((refl, refl), ((refl, refl), tt)))
