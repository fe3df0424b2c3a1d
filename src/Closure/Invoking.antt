-- ===== src/Closure/Invoking.antt =====
-- Calling the function of a closure: gjs_closure_invoke (gi/closure.cpp).
use cjs.Prelude.{◌≡◌, Bool, true, false, some, arith}
use cjs.Root.{get, is_nullptr}
use cjs.Closure.{GLib, GjsClosure, Engine, gjs_closure_invoke}

module _ (glib : GLib) {World Value : Type 0} (engine : Engine glib World Value)
    (logging_clears : (w : World)
      → engine.is_exception_pending (engine.log_exception_uncaught w) ≡ false)
    (scheduling_throws_nothing : (w : World)
      → engine.is_exception_pending (engine.schedule_gc_if_needed w)
        ≡ engine.is_exception_pending w) where
  -- Where logging an exception clears it: if an exception is pending after a closure that has its
  -- function was called, then the caller asked for it, the call has failed, and the exception is
  -- the value that is given back.
  pub gjs_closure_invoke-pending :
      (return_exception : Bool) (c : GjsClosure glib) (w : World)
      → is_nullptr c.func ≡ false
      → (let ((ok, retval), (c', w')) = gjs_closure_invoke glib engine return_exception (c, w) in
          engine.is_exception_pending w' ≡ true)
      → let ((ok, retval), (c', w')) = gjs_closure_invoke glib engine return_exception (c, w) in
        (return_exception ≡ true) × (ok ≡ false) × (retval ≡ some (engine.get_pending_exception w'))
  unfolding gjs_closure_invoke
  gjs_closure_invoke-pending return_exception c w alive pending =
      let w' = (engine.call (get c.func) (c, engine.log_exception w)).1.1 in
      ground (
        arith,
        alive,
        pending,
        logging_clears w',
        scheduling_throws_nothing (engine.log_exception_uncaught w'),
      )
