-- ===== src/Conductors/Tests.antt =====
-- Two conductors, of which the second does not answer and had said long ago that it led.
use infra.Base.{◌≡◌, refl, true, false, some, String, str_eq, List, [], ◌∷◌, if◌then◌else◌}
use infra.Base.Dict.{lookup, elem}
use infra.Conductors.{Answers}
use infra.Conductors.Poll.{State, tick}
use infra.Conductors.States.{kept, found, or_else}
use infra.Conductors.Leaders.{leaders, counts_in, tick-lookup}

abbrev answers : String → Answers
answers name = record {
  connected = str_eq name "one";
  paused = some false;
  stopped = some false;
  active = some true;
  healthy = some true;
  leader = some true;
  leader_with_id = some (record { id = "one"; is_voter = true });
  cluster_membership = some [];
  now = 1000;
}

abbrev old : State
old =
    (
      "two",
      record {
        paused = false;
        stopped = false;
        active = true;
        healthy = true;
        leader = true;
        leader_with_id = record { id = "two"; is_voter = true };
        cluster_membership = [];
        updated_at = 10;
      },
    )
    ∷ []

abbrev config : List String
config = "one" ∷ "two" ∷ []

count_lem : counts_in (tick 100 1000 ("two" ∷ []) config answers old).1 ≡ 1 ∷ []
unfolding tick counts_in
count_lem = refl

tick-lookup_example :
    (lookup "two" (tick 100 1000 ("two" ∷ []) config answers old).0
      ≡ or_else
          (found answers config "two")
          (if elem "two" ("two" ∷ []) then kept 100 1000 (lookup "two" old) else lookup "two" old))
    × (counts_in (tick 100 1000 ("two" ∷ []) config answers old).1
        ≡ leaders (tick 100 1000 ("two" ∷ []) config answers old).0 ∷ [])
tick-lookup_example = tick-lookup 100 1000 ("two" ∷ []) config answers old "two"
