-- ===== src/Instances/Examples.antt =====
-- Three instances that are linked one after the other (gi/object.cpp).
use cjs.Prelude.{ℕ, ◌≡◌, refl, Bool, none, some, List, [], ◌∷◌, ◌==◌, not, arith}
use cjs.Instances.{Links, link, unlink, for_each, remove_wrapped_gobjects_if}
use cjs.Instances.Laws.{IsList, link_lem, unlink_lem}
use cjs.Instances.Sweep.{remove_wrapped_gobjects_if_lem}

abbrev nobody : Links
nobody = record { prev = λ g. none; next = λ g. none; wrapped_gobject_list = none }

abbrev three : Links
three = link 3 (link 2 (link 1 nobody))

three-IsList : IsList (3 ∷ 2 ∷ 1 ∷ []) three
three-IsList =
    link_lem (2 ∷ 1 ∷ []) 3 (link 2 (link 1 nobody))
      (link_lem (1 ∷ []) 2 (link 1 nobody)
        (link_lem [] 1 nobody
          (record { distinct = tt; first = refl; prev = λ g. refl; next = λ g. refl }) refl)
        refl)
      refl

link_lem_example : IsList (4 ∷ 3 ∷ 2 ∷ 1 ∷ []) (link 4 three)
link_lem_example = link_lem (3 ∷ 2 ∷ 1 ∷ []) 4 three three-IsList refl

unlink_lem_example : IsList (3 ∷ 1 ∷ []) (unlink 2 three)
unlink_lem_example = unlink_lem (3 ∷ 2 ∷ 1 ∷ []) 2 three three-IsList

-- Everything but instance 2 goes; the world is what the predicate was asked for, last first.
abbrev all_but_two : ℕ → List ℕ → Bool × List ℕ
all_but_two g asked = (not (g == 2), g ∷ asked)

abbrev note : ℕ → Links × List ℕ → Links × List ℕ
note g (links, asked) = (links, g ∷ asked)

remove_wrapped_gobjects_if_lem_example :
    (links' : Links) × (remove_wrapped_gobjects_if all_but_two 4 note (three, [])
      ≡ some (for_each note (3 ∷ 1 ∷ []) (links', 1 ∷ 2 ∷ 3 ∷ [])))
    × IsList (2 ∷ []) links'
remove_wrapped_gobjects_if_lem_example =
    remove_wrapped_gobjects_if_lem all_but_two 4 note (3 ∷ 2 ∷ 1 ∷ []) three [] three-IsList
      (omega arith)
