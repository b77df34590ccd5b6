-- ===== src/Confirm/Examples.antt =====
-- A drain that is previewed and confirmed.
use Prim.Native.String.{◌++◌ as text_append}
use actions_runners.Prelude.{All, List, String, [], erase, lookup, map, place, refl, sort, ◌∷◌, ◌≡◌}
use actions_runners.Confirm.{
  end, field, object, scalar, Held, Request, canonical, consume_confirmation, given, held_for,
  other,
}
use actions_runners.Confirm.Once.{Attempt, IsFor, Spent, ran, ran_once}

abbrev in_quotes : String → String
in_quotes s = text_append "'" (text_append s "'")

abbrev drain : Request
drain = record {
  action = "runner.drain";
  args = object (field "name" (scalar "app") (field "host" (scalar "mac") end));
  caller = "agent";
}

abbrev same_drain : Request
same_drain = record {
  action = "runner.drain";
  args = object (field "host" (scalar "mac") (field "name" (scalar "app") end));
  caller = "agent";
}

same_text : canonical in_quotes drain.args ≡ canonical in_quotes same_drain.args
unfolding canonical sort place
same_text = refl

abbrev held_drain : List (String × Held)
held_drain = ("t1", held_for in_quotes drain 1000) ∷ []

abbrev tries : List Attempt
tries =
    record { at = 2000; token = given "t1"; request = record drain { caller = "other" } }
    ∷ record { at = 2001; token = given "t1"; request = same_drain }
    ∷ record { at = 2002; token = given "t1"; request = drain }
    ∷ []

ran_once_example :
    Spent in_quotes (ran in_quotes tries held_drain)
    × All (IsFor in_quotes held_drain) (ran in_quotes tries held_drain)
ran_once_example = ran_once in_quotes tries held_drain

ran_one : map (λ t. t.at) (ran in_quotes tries held_drain) ≡ 2001 ∷ []
unfolding ran consume_confirmation lookup erase canonical sort place
ran_one = refl

-- A token in a list is found, and stays pending.
abbrev lists : List Attempt
lists =
    record { at = 2001; token = other "t1"; request = drain }
    ∷ record { at = 2002; token = other "t1"; request = drain }
    ∷ []

ran_twice : map (λ t. t.at) (ran in_quotes lists held_drain) ≡ 2001 ∷ 2002 ∷ []
unfolding ran consume_confirmation lookup erase canonical sort place
ran_twice = refl
