-- ===== src/Context/Run.antt =====
-- GjsContextPrivate::run_jobs_fallible and its callers (cjs/context.cpp). What the JavaScript
-- engine does is given by the record Engine.
use cjs.Prelude.Options.{◌>>=◌}
use cjs.Prelude.{
  ℕ, zero, suc, Bool, true, false, Option, none, some, List, [], ◌∷◌, if◌then◌else◌, ◌==◌, ◌&&◌,
  ◌||◌, get_elem?, set,
}
use cjs.Prelude.Int.{ℤ}
use cjs.Context.{GjsContext, is_empty, exit, enqueue_promise_job, stop_draining_job_queue}

-- What JavaScript code does to the context while it runs: the jobs that it enqueues, each with
-- whether there is memory for it, and a System.exit() at the end, which no JavaScript code can
-- catch. A reentrant call of run_jobs_fallible returns at once and is left out.
pub record Effects (Job : Type 0) : Type 0 where
  pub enqueues : List (Bool × Job)
  pub exits : Option ℕ

-- `World` is everything else: the heap of the engine, its pending exception, the log. A Boolean
-- result is what the function returns. `evaluate` gives the integer that the script returns, if
-- it returns one.
pub record Engine (Job Script World : Type 0) : Type 0 where
  pub call : Job → World → (Bool × Effects Job) × World
  pub is_exception_pending : World → Bool
  pub log_exception : World → World
  pub log_exception_uncaught : World → World
  pub critical_uncatchable : World → World
  pub save_exception : World → World
  pub restore_exception : (saved current : World) → World
  pub prepare_script : Script → World → Bool × World
  pub evaluate : Script → World → ((Bool × Option ℤ) × Effects Job) × World
  pub maybe_gc : World → World
  pub idle_source : ℕ
  pub timeout_source : ℕ

abbrev pub maybe_exit : {Job : Type 0} → Option ℕ → GjsContext Job → Option (GjsContext Job)
maybe_exit none gjs = some gjs
maybe_exit (some exit_code) gjs = exit exit_code gjs

abbrev pub emptied :
    {Job World : Type 0}
    → Bool × (GjsContext Job × World)
    → Option (Bool × (GjsContext Job × World))
emptied (retval, (gjs, w)) =
    some (retval, (stop_draining_job_queue (record gjs { job_queue = [] }), w))

module _ {Job Script World : Type 0} (engine : Engine Job Script World) where
  unfoldable pub enqueue_all : List (Bool × Job) → GjsContext Job → Option (GjsContext Job)
  unfolding enqueue_promise_job
  enqueue_all [] gjs = some gjs
  enqueue_all ((appended, job) ∷ rest) gjs =
      enqueue_promise_job engine.idle_source appended job gjs >>= λ done. enqueue_all rest done.0

  unfoldable pub perform : Effects Job → GjsContext Job → Option (GjsContext Job)
  unfolding enqueue_all exit
  perform effects gjs = enqueue_all effects.enqueues gjs >>= maybe_exit effects.exits

  -- What is done with the answer of JS::Call: the new `retval`, and what is logged.
  unfoldable pub after_call : Bool → Bool → Bool → World → Bool × World
  after_call returned should_exit retval w =
      if returned
      then (retval, w)
      else if engine.is_exception_pending w
      then (retval, engine.log_exception_uncaught w)
      else (false, if should_exit then w else engine.critical_uncatchable w)

  -- The loop over the queue from `ix`, with fuel. `none` is a failed assertion or the end of the
  -- fuel.
  unfoldable pub run_loop :
      ℕ → ℕ → Bool → GjsContext Job → World → Option (Bool × (GjsContext Job × World))
  unfolding perform after_call
  run_loop zero ix retval gjs w = none
  run_loop (suc fuel) ix retval gjs w = elim (get_elem? gjs.job_queue ix) [
    | none ↦ some (retval, (gjs, w))
    | some slot ↦ elim gjs.should_exit [
      | true ↦ some (retval, (gjs, w))
      | false ↦ elim slot [
        | none ↦ run_loop fuel (suc ix) retval gjs w
        | some job ↦
            let ((returned, effects), w') = engine.call job w in
            perform effects (record gjs { job_queue = set gjs.job_queue ix none }) >>= λ gjs'.
            let (retval', w'') = after_call returned gjs'.should_exit retval w' in
            run_loop fuel (suc ix) retval' gjs' w''
      ]
    ]
  ]

  unfoldable pub run_jobs_fallible :
      ℕ → GjsContext Job → World → Option (Bool × (GjsContext Job × World))
  unfolding run_loop stop_draining_job_queue
  run_jobs_fallible fuel gjs w =
      if gjs.draining_job_queue || gjs.should_exit
      then some (true, (gjs, w))
      else run_loop fuel 0 true (record gjs { draining_job_queue = true }) w >>= emptied

  unfoldable pub run_jobs : ℕ → GjsContext Job → World → Option (GjsContext Job × World)
  unfolding run_jobs_fallible
  run_jobs fuel gjs w = do
    (retval, (gjs', w')) ← run_jobs_fallible fuel gjs w
    some (gjs', if retval then w' else engine.log_exception w')

  -- The idle handler, with the assertion at its end.
  unfoldable pub drain_job_queue_idle_handler :
      ℕ → GjsContext Job → World → Option (GjsContext Job × World)
  unfolding run_jobs
  drain_job_queue_idle_handler fuel gjs w = do
    (gjs', w') ← run_jobs fuel gjs w
    if is_empty gjs'.job_queue && (gjs'.idle_drain_handler == 0) then some (gjs', w') else none
