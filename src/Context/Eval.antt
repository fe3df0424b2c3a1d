-- ===== src/Context/Eval.antt =====
-- GjsContextPrivate::eval and eval_with_scope (cjs/context.cpp), without the profiler.
use cjs.Prelude.Options.{◌>>=◌}
use cjs.Prelude.{ℕ, Bool, true, false, Option, none, some, if◌then◌else◌, ◌&&◌}
use cjs.Prelude.Int.{ℤ, pos}
use cjs.Context.{GjsContext, reset_exit, schedule_gc_internal}
use cjs.Context.Run.{Engine, perform, run_jobs_fallible}

-- The GError: GJS_ERROR_SYSTEM_EXIT with the code, or GJS_ERROR_FAILED with one of two texts.
pub data EvalError : Type 0 where
  system_exit : ℕ → EvalError
  uncatchable threw : EvalError

-- What the caller sees: the result, the exit status if there is a place for it, and the error.
pub record EvalEnd : Type 0 where
  pub result : Bool
  pub exit_status : Option ℤ
  pub error : Option EvalError

-- What the caller of a script that fails sees, by whether an exit and an exception are pending.
abbrev pub failed : Bool → Bool → ℕ → EvalEnd
failed true pending exit_code = record {
  result = false;
  exit_status = some (pos exit_code);
  error = some (system_exit exit_code);
}
failed false pending exit_code = record {
  result = false;
  exit_status = some (pos 1);
  error = some (if pending then threw else uncatchable);
}

abbrev pub success_status : Option ℤ → ℤ
success_status none = pos 0
success_status (some code) = code

module _ {Job Script World : Type 0} (engine : Engine Job Script World) where
  unfoldable pub schedule_gc_if_needed : GjsContext Job → World → GjsContext Job × World
  unfolding schedule_gc_internal
  schedule_gc_if_needed gjs w =
      (schedule_gc_internal engine.timeout_source false gjs, engine.maybe_gc w)

  abbrev pub evaluated :
      Bool → Option ℤ → GjsContext Job × World → (Bool × Option ℤ) × (GjsContext Job × World)
  evaluated false retval (gjs, w) = ((false, none), (gjs, w))
  evaluated true retval (gjs, w) =
      let (gjs', w') = schedule_gc_if_needed gjs w in
      if engine.is_exception_pending w'
      then ((false, retval), (gjs', w'))
      else ((true, retval), (gjs', w'))

  -- The result, and the integer in `retval`, if it is one.
  unfoldable pub eval_with_scope :
      Script → GjsContext Job → World → Option ((Bool × Option ℤ) × (GjsContext Job × World))
  unfolding perform schedule_gc_if_needed
  eval_with_scope script gjs w =
      if engine.is_exception_pending w
      then some ((false, none), (gjs, w))
      else let (prepared, w1) = engine.prepare_script script w in
        if prepared
        then (let (((ok, retval), effects), w2) = engine.evaluate script w1 in
            perform engine effects gjs >>= λ gjs'. some (evaluated ok retval (gjs', w2)))
        else some ((false, none), (gjs, w1))

  -- The part after the jobs have run. `none` is a write through a null `exit_status_p`, which only
  -- the last branch tests.
  unfoldable pub conclude :
      Bool → Bool → Option ℤ → GjsContext Job → World → Option (EvalEnd × World)
  conclude has_status_p ok retval gjs w =
      if ok
      then some (
        record {
          result = true;
          exit_status = if has_status_p then some (success_status retval) else none;
          error = none;
        },
        w,
      )
      else if has_status_p
      then some (
        failed gjs.should_exit (engine.is_exception_pending w) gjs.exit_code,
        if gjs.should_exit
            then w
            else engine.log_exception_uncaught
                (if engine.is_exception_pending w then w else engine.critical_uncatchable w),
      )
      else none

  unfoldable pub eval :
      ℕ → Bool → Script → GjsContext Job → World → Option (EvalEnd × (GjsContext Job × World))
  unfolding eval_with_scope run_jobs_fallible conclude reset_exit
  eval fuel has_status_p script gjs w = do
    ((ok, retval), (gjs1, w1)) ← eval_with_scope script gjs w
    (drained, (gjs2, w2)) ← run_jobs_fallible engine fuel gjs1 (engine.save_exception w1)
    let w3 = engine.restore_exception w1 w2
    (end, w4) ← conclude has_status_p (drained && ok) retval gjs2 w3
    some (end, (reset_exit gjs2, w4))
