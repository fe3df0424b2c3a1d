-- ===== src/Object/Examples.antt =====
-- Runs of the toggle protocol (gi/object.cpp) over a concrete heap of reference counts.
use cjs.Prelude.{
  ℕ, suc, ◌+◌, ◌-◌, ◌<◌, ◌≡◌, refl, ◌==◌, Bool, true, false, none, some, [], ◌∷◌, arith,
  if◌then◌else◌, ◌⊎◌, ltb,
}
use cjs.Root.{rooted, is_nullptr}
use cjs.Toggle.{down, up, ToggleQueue, enqueue, is_queued, find_operation_locked}
use cjs.Toggle.Laws.{pending}
use cjs.Object.Defs.{
  GLib, ObjectInstance, World, toggle_handler_ptr, has_wrapper, wrapper_is_rooted, object_ref,
  object_unref, handle, gjs_object_clear_toggles, wrapped_gobj_toggle_notify,
}
use cjs.Object.Phases.{IsHeld}
use cjs.Object.Invariant.{State, Inv, Phase}
use cjs.Object.Notify.{queue_refs}
use cjs.Object.Clearing.{gjs_object_clear_toggles_lem}
use cjs.Object.Protocol.{
  here, later, refs, object_ref_lem, object_unref_lem, handle_lem, Reach-Inv, at_most_two,
}

-- Reference counts as a function.
abbrev counts : GLib
counts = record {
  Heap = ℕ → ℕ;
  ref_count = λ h g. h g;
  ref = λ g h j. if g == j then suc (h j) else h j;
  unref = λ g h j. if g == j then h j - 1 else h j;
  idle_source = 1;
  ref_count-ref = λ g h j. refl;
  ref_count-unref = λ g h j. refl;
  idle_source_pos = omega arith;
}

abbrev loose : ObjectInstance
loose = record {
  in_qdata = true;
  wrapper = record { heap = some 7; root = none; notify = none };
  uses_toggle_ref = true;
  gobj_disposed = false;
  wrapper_finalized = false;
}

abbrev fixed : ObjectInstance
fixed = record loose { wrapper = record { heap = none; root = some (some 7); notify = none } }

abbrev idle : ToggleQueue
idle = record { q = []; has_shutdown = false; idle_id = 0; toggle_handler = none }

abbrev world : (ℕ → ℕ) → (ℕ → ObjectInstance) → World counts
world heap instances = record {
  heap = heap;
  instances = instances;
  destroying = false;
  gc_scheduled = false;
}

-- Only the wrappers hold references.
abbrev start : State counts
start = (idle, world (λ g. 1) (λ g. loose))

-- Object 4 has another reference.
abbrev shared : State counts
shared = (idle, world (λ j. if 4 == j then 2 else 1) (λ j. if 4 == j then fixed else loose))

-- That reference is gone, and the toggle down is queued.
abbrev queued : State counts
queued = (
  record {
    q = record { gobj = 4; direction = down; needs_unref = false } ∷ [];
    has_shutdown = false;
    idle_id = 1;
    toggle_handler = some toggle_handler_ptr;
  },
  world (λ j. 1) (λ j. if 4 == j then fixed else loose),
)

loose-IsHeld : IsHeld loose
unfolding has_wrapper is_nullptr rooted
loose-IsHeld = record {
  found = refl;
  not_finalized = refl;
  present = refl;
  valid = record { one_slot = λ e. ground arith; notified = λ e. refl };
}

fixed-IsHeld : IsHeld fixed
unfolding has_wrapper is_nullptr rooted
fixed-IsHeld = record {
  found = refl;
  not_finalized = refl;
  present = refl;
  valid = record { one_slot = λ e. refl; notified = λ e. refl };
}

some-IsHeld : (b : Bool) → IsHeld (if b then fixed else loose)
some-IsHeld true = fixed-IsHeld
some-IsHeld false = loose-IsHeld

start-Inv : Inv counts start
unfolding pending wrapper_is_rooted rooted
start-Inv = record {
  living = refl;
  queue = record { running = refl; unrefs = tt; handler = λ e. ground arith };
  held = λ g. loose-IsHeld;
  phase = λ g. (omega arith, refl);
}

shared-Inv : Inv counts shared
unfolding pending wrapper_is_rooted rooted
shared-Inv = record {
  living = refl;
  queue = record { running = refl; unrefs = tt; handler = λ e. ground arith };
  held = λ g. some-IsHeld (4 == g);
  phase = λ g. at (4 == g);
}
  where
    at : (b : Bool) → Phase [] (if b then 2 else 1) (wrapper_is_rooted (if b then fixed else loose))
    at true = (omega arith, refl)
    at false = (omega arith, refl)

queued-Inv : Inv counts queued
unfolding pending wrapper_is_rooted rooted
queued-Inv = record {
  living = refl;
  queue = record { running = refl; unrefs = (refl, tt); handler = λ e. refl };
  held = λ g. some-IsHeld (4 == g);
  phase = λ g. at (4 == g);
}
  where
    at :
        (b : Bool)
        → Phase (if b then down ∷ [] else []) 1 (wrapper_is_rooted (if b then fixed else loose))
    at true = (refl, refl)
    at false = (omega arith, refl)

object_ref_lem_example :
    (t : State counts) × (object_ref counts false 4 start ≡ some t) × Inv counts t
object_ref_lem_example = object_ref_lem counts false 4 start start-Inv

shared-unref : queue_refs (pending 4 shared.0.q) + 1 < counts.ref_count shared.1.heap 4
unfolding pending
shared-unref = omega arith

object_unref_lem_example :
    (t : State counts) × (object_unref counts true 4 shared ≡ some t) × Inv counts t
object_unref_lem_example = object_unref_lem counts true 4 shared shared-Inv shared-unref

handle_lem_example : (r : State counts × Bool) × (handle counts queued ≡ some r) × Inv counts r.0
handle_lem_example = handle_lem counts queued queued-Inv

-- Another thread takes a reference to object 4: the toggle up is queued.
abbrev taken : State counts
taken = (
  record {
    q = record { gobj = 4; direction = up; needs_unref = true } ∷ [];
    has_shutdown = false;
    idle_id = 1;
    toggle_handler = some toggle_handler_ptr;
  },
  record (world (λ g. 1) (λ g. loose)) { heap = counts.ref 4 (counts.ref 4 (λ g. 1)) },
)

ref-taken : object_ref counts false 4 start ≡ some taken
unfolding object_ref wrapped_gobj_toggle_notify is_queued find_operation_locked enqueue
ref-taken = refl

Reach-Inv_example : Inv counts taken
Reach-Inv_example = Reach-Inv counts start-Inv (later here (refs false 4 ref-taken))

at_most_two_example :
    (pending 4 taken.0.q ≡ [])
    ⊎ ((pending 4 taken.0.q ≡ up ∷ [])
        ⊎ ((pending 4 taken.0.q ≡ down ∷ []) ⊎ (pending 4 taken.0.q ≡ down ∷ up ∷ [])))
at_most_two_example = at_most_two counts 4 start-Inv (later here (refs false 4 ref-taken))

gjs_object_clear_toggles_lem_example :
    (t : State counts) × (gjs_object_clear_toggles counts 2 queued ≡ some (t, true))
    × (t.0.q ≡ [])
    × ((g : ℕ) → wrapper_is_rooted (t.1.instances g) ≡ ltb 1 (counts.ref_count t.1.heap g))
gjs_object_clear_toggles_lem_example =
    gjs_object_clear_toggles_lem counts 2 queued queued-Inv (omega arith)
