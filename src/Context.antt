-- ===== src/Context.antt =====
-- GjsContextPrivate (cjs/context.cpp, cjs/context-private.h): the queue of promise jobs, the exit
-- code, the rejected promises that nothing handles, and the scheduling of garbage collections.
pub mod Run
pub mod Eval
pub mod Reference
pub mod Queueing
pub mod Drains
pub mod Installed
pub mod Saved
pub mod Ends
pub mod Evaluates
mod Examples
use cjs.Prelude.{
  ℕ, ◌%◌, String, Bool, true, false, Option, none, some, List, [], ◌∷◌, ◌++◌, if◌then◌else◌, ◌==◌,
  ◌||◌, ltb,
}

-- A slot of the queue is null once its job has run. An id of 0 is no source.
pub record GjsContext (Job : Type 0) : Type 0 where
  pub job_queue : List (Option Job)
  pub draining_job_queue : Bool
  pub idle_drain_handler : ℕ
  pub should_exit : Bool
  pub exit_code : ℕ
  pub unhandled_rejection_stacks : List (ℕ × String)
  pub force_gc : Bool
  pub auto_gc_id : ℕ

abbrev pub is_empty {ℓ} : {A : Type ℓ} → List A → Bool
is_empty [] = true
is_empty (_ ∷ _) = false

abbrev pub same : Bool → Bool → Bool
same true b = b
same false true = false
same false false = true

-- The code is a uint8_t.
unfoldable pub exit : {Job : Type 0} → ℕ → GjsContext Job → Option (GjsContext Job)
exit exit_code gjs =
    if gjs.should_exit
    then none
    else some (record gjs { should_exit = true; exit_code = exit_code % 256 })

-- The destructor of AutoResetExit.
unfoldable pub reset_exit : {Job : Type 0} → GjsContext Job → GjsContext Job
reset_exit gjs = record gjs { should_exit = false; exit_code = 0 }

-- `source` is the id that g_idle_add_full gives.
unfoldable pub start_draining_job_queue : {Job : Type 0} → ℕ → GjsContext Job → GjsContext Job
start_draining_job_queue source gjs =
    if gjs.idle_drain_handler == 0 then record gjs { idle_drain_handler = source } else gjs

unfoldable pub stop_draining_job_queue : {Job : Type 0} → GjsContext Job → GjsContext Job
stop_draining_job_queue gjs = record gjs { draining_job_queue = false; idle_drain_handler = 0 }

-- `appended` says that there was memory to append the job; `none` is a failed assertion.
unfoldable pub enqueue_promise_job :
    {Job : Type 0} → ℕ → Bool → Job → GjsContext Job → Option (GjsContext Job × Bool)
unfolding start_draining_job_queue
enqueue_promise_job source appended job gjs =
    if same (is_empty gjs.job_queue) (gjs.idle_drain_handler == 0)
    then (if appended
        then some (
          start_draining_job_queue source
              (record gjs { job_queue = gjs.job_queue ++ some job ∷ [] }),
          true,
        )
        else some (gjs, false))
    else none

-- What the constructor of SavedQueue keeps, and its destructor puts back.
pub record SavedQueue (Job : Type 0) : Type 0 where
  pub queue : List (Option Job)
  pub was_draining : Bool

-- The queue is moved out of the context.
unfoldable pub save_job_queue : {Job : Type 0} → GjsContext Job → SavedQueue Job × GjsContext Job
unfolding stop_draining_job_queue
save_job_queue gjs = (
  record { queue = gjs.job_queue; was_draining = gjs.draining_job_queue },
  stop_draining_job_queue (record gjs { job_queue = [] }),
)

unfoldable pub restore_job_queue :
    {Job : Type 0} → ℕ → SavedQueue Job → GjsContext Job → GjsContext Job
unfolding start_draining_job_queue
restore_job_queue source saved gjs =
    let gjs' = record gjs { job_queue = saved.queue } in
    if saved.was_draining then start_draining_job_queue source gjs' else gjs'

unfoldable pub set_stack : ℕ → String → List (ℕ × String) → List (ℕ × String)
set_stack id stack [] = (id, stack) ∷ []
set_stack id stack ((key, old) ∷ rest) =
    if key == id then (id, stack) ∷ rest else (key, old) ∷ set_stack id stack rest

-- What is left, and how many entries there were.
unfoldable pub erase_stack : ℕ → List (ℕ × String) → List (ℕ × String) × ℕ
erase_stack id [] = ([], 0)
erase_stack id ((key, old) ∷ rest) =
    let (kept, erased) = erase_stack id rest in
    if key == id then (rest, 1) else ((key, old) ∷ kept, erased)

unfoldable pub register_unhandled_promise_rejection :
    {Job : Type 0} → ℕ → String → GjsContext Job → GjsContext Job
unfolding set_stack
register_unhandled_promise_rejection id stack gjs = record gjs {
  unhandled_rejection_stacks = set_stack id stack gjs.unhandled_rejection_stacks;
}

unfoldable pub unregister_unhandled_promise_rejection :
    {Job : Type 0} → ℕ → GjsContext Job → Option (GjsContext Job)
unfolding erase_stack
unregister_unhandled_promise_rejection id gjs =
    let (stacks, erased) = erase_stack id gjs.unhandled_rejection_stacks in
    if erased == 1 then some (record gjs { unhandled_rejection_stacks = stacks }) else none

-- `source` is the id that g_timeout_add_seconds_full gives.
unfoldable pub schedule_gc_internal : {Job : Type 0} → ℕ → Bool → GjsContext Job → GjsContext Job
schedule_gc_internal source force_gc gjs =
    let forced = gjs.force_gc || force_gc in
    if ltb 0 gjs.auto_gc_id
    then record gjs { force_gc = forced }
    else record gjs { force_gc = forced; auto_gc_id = source }

-- The timeout: the Boolean says whether a collection is forced.
unfoldable pub trigger_gc_if_needed : {Job : Type 0} → GjsContext Job → GjsContext Job × Bool
trigger_gc_if_needed gjs = (record gjs { auto_gc_id = 0; force_gc = false }, gjs.force_gc)
