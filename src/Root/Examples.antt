-- ===== src/Root/Examples.antt =====
-- Runs of GjsMaybeOwned (cjs/jsapi-util-root.h) at concrete things.
use cjs.Prelude.{Bool, ◌≡◌, refl, true, false, none, some, List, [], ◌∷◌}
use cjs.Root.{
  MaybeOwned, new, rooted, get, root_thing, assign, reset, switch_to_rooted, on_context_destroy,
  new_notifier,
}
use cjs.Root.Refinement.{
  Operation, assigns, switches_to_rooted, switches_to_unrooted, resets, notified_of_destruction,
  apply, run, contract_run, view, map_view, IsValid, new-IsValid, run_refines, run-IsValid,
  on_context_destroy-root_thing,
}

abbrev uses : List (Bool × Operation)
uses = (false, assigns (some 3)) ∷ (true, switches_to_rooted (some (5, 6))) ∷ []

abbrev more_uses : List (Bool × Operation)
more_uses =
    (true, assigns (some 3))
    ∷ (true, switches_to_rooted (some (5, 6)))
    ∷ (true, notified_of_destruction)
    ∷ (false, switches_to_unrooted)
    ∷ (false, resets)
    ∷ []

abbrev three_rooted : MaybeOwned
three_rooted = record {
  heap = none;
  root = some (some 3);
  notify = some (record { connected = true; func = 5; user_data = 6 });
}

run-uses : run new uses ≡ some three_rooted
unfolding run apply assign switch_to_rooted new rooted root_thing new_notifier
run-uses = refl

run_refines_example : map_view (run new more_uses) ≡ contract_run (view new) more_uses
run_refines_example = run_refines new more_uses

run-IsValid_example : IsValid three_rooted
run-IsValid_example = run-IsValid new uses new-IsValid run-uses

root_thing-three : root_thing true new (some 3) (some (5, 6)) ≡ some three_rooted
unfolding root_thing rooted new new_notifier
root_thing-three = refl

on_context_destroy-root_thing_example :
    (reset false three_rooted ≡ none)
    × ((m : MaybeOwned) × (on_context_destroy three_rooted ≡ some (m, (some 3, 5, 6)))
        × (get m ≡ some 3)
        × (reset false m ≡ some new))
on_context_destroy-root_thing_example =
    on_context_destroy-root_thing false new (some 3) 5 6 root_thing-three
