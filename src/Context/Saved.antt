-- ===== src/Context/Saved.antt =====
-- Saving and restoring the queue of promise jobs (cjs/context.cpp): GjsContextPrivate::SavedQueue,
-- which the debugger uses to run jobs of its own in between.
use cjs.Prelude.{ℕ, ◌≡◌, Bool, false, arith, ◌==◌, not, if◌then◌else◌}
use cjs.Root.{is_some}
use cjs.Context.{
  GjsContext, is_empty, same, enqueue_promise_job, start_draining_job_queue,
  stop_draining_job_queue, save_job_queue, restore_job_queue,
}

module _ {Job : Type 0} (source : ℕ) (is_source : (source == 0) ≡ false) where
  -- Saving and restoring the queue gives the queue back and changes nothing else but this: the
  -- context is no longer draining, and the idle handler is installed just when it was draining.
  pub restore-save :
      (gjs : GjsContext Job)
      → restore_job_queue source (save_job_queue gjs).0 (save_job_queue gjs).1 ≡ record gjs {
        draining_job_queue = false;
        idle_drain_handler = if gjs.draining_job_queue then source else 0;
      }
  unfolding restore_job_queue save_job_queue start_draining_job_queue stop_draining_job_queue
  restore-save gjs = ground arith

  -- After that, enqueuing a job passes its assertion just when the queue is empty and was not being
  -- drained, or has slots and was being drained. A queue that has slots and was not being drained,
  -- which is what the debugger finds when a script stops, makes the next promise job fail it.
  pub enqueue_promise_job-restored :
      (appended : Bool) (job : Job) (gjs : GjsContext Job)
      → is_some (
          enqueue_promise_job source appended job
            (restore_job_queue source (save_job_queue gjs).0 (save_job_queue gjs).1))
        ≡ same (is_empty gjs.job_queue) (not gjs.draining_job_queue)
  unfolding enqueue_promise_job
  enqueue_promise_job-restored appended job gjs = rw (restore-save gjs) ground (arith, is_source)
