-- ===== src/Context/Ends.antt =====
-- That running the promise jobs ends (cjs/context.cpp), for jobs that enqueue finitely many others.
use cjs.Prelude.{
  ℕ, zero, suc, ◌+◌, ◌<◌, ◌≡◌, refl, ap, ◌∙◌, sym, Bool, true, false, Option, none, some, List, [],
  ◌∷◌, ◌++◌, arith, ◌==◌, ◌&&◌, not, inl, inr, Option-cases, Bool-cases,
}
use cjs.Root.{is_some}
use cjs.Function.Loops.{Ends}
use cjs.Context.{GjsContext, is_empty}
use cjs.Context.Run.{Engine, run_jobs_fallible, run_jobs, drain_job_queue_idle_handler}
use cjs.Context.Reference.{live, nulls, enqueued, IsInstalled, settled, Drained, drain}
use cjs.Context.Drains.{after, drain-stays, drain-exits, run_jobs_fallible_lem}

abbrev pub total : {Job : Type 0} → (Job → ℕ) → List Job → ℕ
total budget [] = 0
total budget (job ∷ jobs) = budget job + total budget jobs

pub total-append :
    {Job : Type 0} (budget : Job → ℕ) (xs ys : List Job)
    → total budget (xs ++ ys) ≡ total budget xs + total budget ys
total-append budget [] ys = omega arith
total-append budget (x ∷ xs) ys = omega (arith, total-append budget xs ys)

-- Every job enqueues jobs of a smaller budget than its own, all together.
module _ {Job Script World : Type 0} (engine : Engine Job Script World) (budget : Job → ℕ)
    (shrinks : (job : Job) (w : World)
      → total budget (enqueued (engine.call job w).0.1.enqueues) < budget job) where
  -- An exit comes from a job.
  abbrev pub FromJob : ℕ → Type 0
  FromJob code = (job : Job) × (w : World) × ((engine.call job w).0.1.exits ≡ some code)

  abbrev pub Caused : Option ℕ → Type 0
  Caused none = Unit
  Caused (some code) = FromJob code

  drain-Ends :
      (n : ℕ) (jobs : List Job) (retval : Bool) (w : World)
      → total budget jobs < n
      → (a : Drained engine) × (drain engine n jobs retval w ≡ some a) × Caused a.1.0
  unfolding drain
  drain-Ends zero jobs retval w h = absurd (omega arith)
  drain-Ends (suc n) [] retval w h = ((retval, (none, w)), refl, tt)
  drain-Ends (suc n) (job ∷ jobs) retval w h =
      let added = enqueued (engine.call job w).0.1.enqueues in
      let went = after engine job w false retval in
      elim (Option-cases (engine.call job w).0.1.exits) [
        | inl stays ↦
            let (a, e, cause) =
              drain-Ends n (jobs ++ added) went.0 went.1
                (omega (arith, shrinks job w, total-append budget jobs added)) in
            (a, drain-stays engine n job jobs retval w stays ∙ e, cause)
        | inr (code, leaves) ↦ (
          ((after engine job w true retval).0, (some code, (after engine job w true retval).1)),
          drain-exits engine n code job jobs retval w leaves,
          (job, w, leaves),
        )
      ]

  -- What is left when the jobs have run: what popping the queue at its front gives, with an empty
  -- queue and no handler, and with an exit pending only if a job exited with that code.
  pub record Finishes (gjs : GjsContext Job) (w : World) (end : Bool × (GjsContext Job × World))
      : Type 0 where
    pub answer : Drained engine
    pub ran :
        drain engine (suc (total budget (live gjs.job_queue))) (live gjs.job_queue) true w
        ≡ some answer
    pub left : end ≡ (answer.0, (settled answer.1.0 gjs, answer.1.1))
    pub cause : Caused answer.1.0

  -- With the idle handler installed exactly while there are slots, outside a drain and with no exit
  -- pending, jobs that enqueue finitely many others, and enough fuel: running the jobs gives the
  -- answer that a queue popped at its front gives. The queue is empty after it and the handler
  -- removed. An exit is pending exactly if that answer has an exit code, which a job exited with.
  pub run_jobs_fallible-Ends :
      (fuel : ℕ) (gjs : GjsContext Job) (w : World)
      → IsInstalled gjs
      → gjs.draining_job_queue ≡ false
      → gjs.should_exit ≡ false
      → suc (total budget (live gjs.job_queue)) + nulls gjs.job_queue < fuel
      → Ends (run_jobs_fallible engine fuel gjs w) (Finishes gjs w)
  run_jobs_fallible-Ends fuel gjs w installed idle running enough =
      let (a, e, cause) =
        drain-Ends (suc (total budget (live gjs.job_queue))) (live gjs.job_queue) true w
          (omega arith) in
      (
        (a.0, (settled a.1.0 gjs, a.1.1)),
        run_jobs_fallible_lem engine fuel (suc (total budget (live gjs.job_queue))) gjs w a
            installed idle running enough e,
        record { answer = a; ran = e; left = refl; cause = cause },
      )

  pub run_jobs_fallible-exiting :
      (fuel : ℕ) (gjs : GjsContext Job) (w : World)
      → gjs.should_exit ≡ true
      → run_jobs_fallible engine fuel gjs w ≡ some (true, (gjs, w))
  unfolding run_jobs_fallible
  run_jobs_fallible-exiting fuel gjs w exiting = ground (arith, exiting)

  idle_handler_lem :
      (fuel : ℕ) (gjs : GjsContext Job) (w : World) (end : Bool × (GjsContext Job × World))
      → run_jobs_fallible engine fuel gjs w ≡ some end
      → is_some (drain_job_queue_idle_handler engine fuel gjs w)
        ≡ (is_empty end.1.0.job_queue && (end.1.0.idle_drain_handler == 0))
  unfolding drain_job_queue_idle_handler run_jobs
  idle_handler_lem fuel gjs w end e = rw (run_jobs, e) ground arith

  settled-IsEmpty :
      (exits : Option ℕ) (gjs : GjsContext Job)
      → (is_empty (settled exits gjs).job_queue && ((settled exits gjs).idle_drain_handler == 0))
        ≡ true
  settled-IsEmpty none gjs = refl
  settled-IsEmpty (some code) gjs = refl

  -- With slots in the queue and the idle handler installed, outside a drain, with jobs that enqueue
  -- finitely many others and enough fuel: the assertion at the end of the idle handler holds when no
  -- exit is pending, and fails when one is, because then no job runs and the queue keeps its slots.
  pub drain_job_queue_idle_handler_lem :
      (fuel : ℕ) (gjs : GjsContext Job) (w : World)
      → IsInstalled gjs
      → gjs.draining_job_queue ≡ false
      → is_empty gjs.job_queue ≡ false
      → suc (total budget (live gjs.job_queue)) + nulls gjs.job_queue < fuel
      → is_some (drain_job_queue_idle_handler engine fuel gjs w) ≡ not gjs.should_exit
  drain_job_queue_idle_handler_lem fuel gjs w installed idle full enough =
      elim (Bool-cases gjs.should_exit) [
        | inl exiting ↦
            idle_handler_lem fuel gjs w _ (run_jobs_fallible-exiting fuel gjs w exiting)
            ∙ rw (full, exiting)
        | inr running ↦
            let (end, e, law) = run_jobs_fallible-Ends fuel gjs w installed idle running enough in
            idle_handler_lem fuel gjs w end e
            ∙ ap (λ (g : GjsContext Job). is_empty g.job_queue && (g.idle_drain_handler == 0))
                (ap (λ (x : Bool × (GjsContext Job × World)). x.1.0) law.left)
            ∙ settled-IsEmpty law.answer.1.0 gjs
            ∙ sym (ap not running)
      ]
