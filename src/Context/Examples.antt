-- ===== src/Context/Examples.antt =====
-- Runs of the promise jobs (cjs/context.cpp) with concrete jobs: job n enqueues job n - 1, and the
-- script enqueues job 1.
use cjs.Prelude.{
  ℕ, zero, suc, ◌<◌, ◌≡◌, refl, Bool, true, false, none, some, List, [], ◌∷◌, arith, if◌then◌else◌,
  not,
}
use cjs.Prelude.Int.{pos}
use cjs.Root.{is_some}
use cjs.Function.Loops.{Ends}
use cjs.Context.{
  GjsContext, is_empty, same, enqueue_promise_job, save_job_queue, restore_job_queue, exit,
}
use cjs.Context.Run.{Engine, run_jobs_fallible, drain_job_queue_idle_handler}
use cjs.Context.Reference.{enqueued, settled, drain}
use cjs.Context.Drains.{run_jobs_fallible_lem}
use cjs.Context.Installed.{start, onward, exits, Enqueued, enqueue_promise_job_lem}
use cjs.Context.Saved.{restore-save, enqueue_promise_job-restored}
use cjs.Context.Ends.{total, run_jobs_fallible-Ends, Finishes, drain_job_queue_idle_handler_lem}

abbrev countdown : ℕ → List (Bool × ℕ)
countdown zero = []
countdown (suc n) = (true, n) ∷ []

-- The world is the log of the jobs that ran.
abbrev logging : Engine ℕ ℕ (List ℕ)
logging = record {
  call = λ job log. ((true, record { enqueues = countdown job; exits = none }), job ∷ log);
  is_exception_pending = λ log. false;
  log_exception = λ log. log;
  log_exception_uncaught = λ log. log;
  critical_uncatchable = λ log. log;
  save_exception = λ log. log;
  restore_exception = λ saved log. log;
  prepare_script = λ script log. (true, log);
  evaluate = λ script log.
      (((true, some (pos script)), record { enqueues = (true, 1) ∷ []; exits = none }), log);
  maybe_gc = λ log. log;
  idle_source = 7;
  timeout_source = 8;
}

abbrev budget : ℕ → ℕ
budget n = suc n

shrinks : (job : ℕ) (log : List ℕ) → total budget (enqueued (countdown job)) < budget job
shrinks zero log = omega arith
shrinks (suc n) log = omega arith

-- A context with two jobs, the first slot being empty.
abbrev waiting : GjsContext ℕ
waiting = record {
  job_queue = none ∷ some 2 ∷ some 1 ∷ [];
  draining_job_queue = false;
  idle_drain_handler = 7;
  should_exit = false;
  exit_code = 0;
  unhandled_rejection_stacks = [];
  force_gc = false;
  auto_gc_id = 0;
}

drained : drain logging 9 (2 ∷ 1 ∷ []) true [] ≡ some (true, (none, 0 ∷ 0 ∷ 1 ∷ 1 ∷ 2 ∷ []))
unfolding drain
drained = refl

run_jobs_fallible_lem_example :
    run_jobs_fallible logging 11 waiting []
    ≡ some (true, (settled none waiting, 0 ∷ 0 ∷ 1 ∷ 1 ∷ 2 ∷ []))
run_jobs_fallible_lem_example =
    run_jobs_fallible_lem logging 11 9 waiting [] (true, (none, 0 ∷ 0 ∷ 1 ∷ 1 ∷ 2 ∷ [])) refl refl
      refl (omega arith) drained

run_jobs_fallible-Ends_example :
    Ends (run_jobs_fallible logging 9 waiting []) (Finishes logging budget shrinks waiting [])
run_jobs_fallible-Ends_example =
    run_jobs_fallible-Ends logging budget shrinks 9 waiting [] refl refl refl (omega arith)

drain_job_queue_idle_handler_lem_example :
    is_some (drain_job_queue_idle_handler logging 9 waiting []) ≡ not waiting.should_exit
drain_job_queue_idle_handler_lem_example =
    drain_job_queue_idle_handler_lem logging budget shrinks 9 waiting [] refl refl refl
      (omega arith)

exiting : exit 300 waiting ≡ some (record waiting { should_exit = true; exit_code = 44 })
unfolding exit
exiting = refl

abbrev after_exit : GjsContext ℕ
after_exit = record waiting { should_exit = true; exit_code = 44 }

enqueue_promise_job_lem_example :
    Ends (enqueue_promise_job 7 true 5 after_exit) (λ end. Enqueued true 5 after_exit end.0)
enqueue_promise_job_lem_example =
    enqueue_promise_job_lem logging refl (waiting, []) (after_exit, []) true 5 refl
      (onward start (exits 300 exiting))

restore-save_example :
    restore_job_queue 9 (save_job_queue waiting).0 (save_job_queue waiting).1 ≡ record waiting {
      draining_job_queue = false;
      idle_drain_handler = if waiting.draining_job_queue then 9 else 0;
    }
restore-save_example = restore-save 9 refl waiting

enqueue_promise_job-restored_example :
    is_some (
      enqueue_promise_job 9 true 5
        (restore_job_queue 9 (save_job_queue waiting).0 (save_job_queue waiting).1))
    ≡ same (is_empty waiting.job_queue) (not waiting.draining_job_queue)
enqueue_promise_job-restored_example = enqueue_promise_job-restored 9 refl true 5 waiting
