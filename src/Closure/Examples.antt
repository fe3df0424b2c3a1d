-- ===== src/Closure/Examples.antt =====
-- Runs of gi/closure.cpp with a GLib whose closures are a flag.
use cjs.Prelude.Options.{◌>>=◌}
use cjs.Prelude.{ℕ, ◌≡◌, refl, Bool, true, false, some, [], ◌∷◌, not}
use cjs.Root.{is_nullptr}
use cjs.Function.Loops.{Ends}
use cjs.Closure.{GLib, GjsClosure, Engine, closure_set_invalid, gjs_closure_new, gjs_closure_invoke}
use cjs.Closure.Lifetime.{held}
use cjs.Closure.Protocol.{invalidates, context_dies, killed, run, Visible, gjs_closure_new-Ends}
use cjs.Closure.Invoking.{gjs_closure_invoke-pending}

abbrev flags : GLib
flags = record {
  Base = Bool;
  g_closure_new_simple = false;
  is_invalid = λ base. base;
  invalidate = λ base. (true, not base);
  new_is_valid = refl;
  invalidate_marks = λ base. refl;
  invalidate_once = λ base. refl;
}

gjs_closure_new-Ends_example :
    Ends
      (gjs_closure_new flags true 3 (some 5) true 2
        >>= run flags true (context_dies ∷ invalidates ∷ []))
      (Visible flags (killed false true (context_dies ∷ invalidates ∷ [])) false 5 2)
gjs_closure_new-Ends_example =
    gjs_closure_new-Ends flags 3 5 2 true (context_dies ∷ invalidates ∷ [])

-- The world is whether an exception is pending; every call throws.
abbrev throwing : Engine flags Bool ℕ
throwing = record {
  log_exception = λ w. false;
  call = λ thing (c, w). ((false, 0), (c, true));
  is_exception_pending = λ w. w;
  get_pending_exception = λ w. 9;
  log_exception_uncaught = λ w. false;
  undefined = 0;
  schedule_gc_if_needed = λ w. w;
}

abbrev signal_closure : GjsClosure flags
signal_closure = record {
  base = false;
  notifier = closure_set_invalid;
  context = some 3;
  func = held false 5;
}

invoked :
    gjs_closure_invoke flags throwing true (signal_closure, false)
    ≡ ((false, some 9), (signal_closure, true))
unfolding gjs_closure_invoke is_nullptr
invoked = refl

gjs_closure_invoke-pending_example :
    let ((ok, retval), (c', w')) = gjs_closure_invoke flags throwing true (signal_closure, false) in
    (true ≡ true) × (ok ≡ false) × (retval ≡ some (throwing.get_pending_exception w'))
unfolding gjs_closure_invoke is_nullptr
gjs_closure_invoke-pending_example =
    gjs_closure_invoke-pending flags throwing (λ w. refl) (λ w. refl) true signal_closure false refl
      refl
