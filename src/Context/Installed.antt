-- ===== src/Context/Installed.antt =====
-- When the idle handler is installed (cjs/context.cpp), and that the assertions about it hold.
use mathlib.Core.Path.{subst}
use mathlib.Core.List.{append_assoc, append-nil}
use mathlib.Core.Option.{some-injective}
use cjs.Prelude.Options.{◌>>=◌}
use cjs.Prelude.{
  if◌then◌else◌, ◌||◌, ℕ, ◌≡◌, refl, sym, ap, ◌∙◌, Bool, true, false, Option, none, some, List, [],
  ◌∷◌, ◌++◌, map, arith, ◌==◌, String,
}
use cjs.Function.Loops.{Ends, Ends-if}
use cjs.Function.Order.{Every, Every-if, Every-some, Every-none}
use cjs.Context.Queueing.{is_empty-append}
use cjs.Context.{
  GjsContext, is_empty, same, enqueue_promise_job, start_draining_job_queue, exit, reset_exit,
  stop_draining_job_queue, register_unhandled_promise_rejection,
  unregister_unhandled_promise_rejection, schedule_gc_internal, trigger_gc_if_needed, erase_stack,
}
use cjs.Context.Run.{Engine, enqueue_all, run_loop, emptied, run_jobs_fallible}
use cjs.Context.Reference.{IsInstalled, enqueued}

module _ {Job Script World : Type 0} (engine : Engine Job Script World) where
  -- What the context goes through: each step is one call that returns.
  pub data Step : GjsContext Job × World → GjsContext Job × World → Type 0 where
    enqueues :
        {gjs gjs' : GjsContext Job} {w : World} (appended r : Bool) (job : Job)
        → enqueue_promise_job engine.idle_source appended job gjs ≡ some (gjs', r)
        → Step (gjs, w) (gjs', w)
    runs :
        {gjs gjs' : GjsContext Job} {w w' : World} (fuel : ℕ) (r : Bool)
        → run_jobs_fallible engine fuel gjs w ≡ some (r, (gjs', w'))
        → Step (gjs, w) (gjs', w')
    exits :
        {gjs gjs' : GjsContext Job} {w : World} (code : ℕ)
        → exit code gjs ≡ some gjs'
        → Step (gjs, w) (gjs', w)
    resets : {gjs : GjsContext Job} {w : World} → Step (gjs, w) (reset_exit gjs, w)
    registers :
        {gjs : GjsContext Job} {w : World} (id : ℕ) (stack : String)
        → Step (gjs, w) (register_unhandled_promise_rejection id stack gjs, w)
    unregisters :
        {gjs gjs' : GjsContext Job} {w : World} (id : ℕ)
        → unregister_unhandled_promise_rejection id gjs ≡ some gjs'
        → Step (gjs, w) (gjs', w)
    schedules :
        {gjs : GjsContext Job} {w : World} (force_gc : Bool)
        → Step (gjs, w) (schedule_gc_internal engine.timeout_source force_gc gjs, w)
    triggers : {gjs : GjsContext Job} {w : World} → Step (gjs, w) ((trigger_gc_if_needed gjs).0, w)

  pub data Steps : GjsContext Job × World → GjsContext Job × World → Type 0 where
    start : {s : GjsContext Job × World} → Steps s s
    onward : {s t u : GjsContext Job × World} → Steps s t → Step t u → Steps s u

abbrev pub pushed : {Job : Type 0} → Bool → Job → List (Option Job) → List (Option Job)
pushed appended job q = if appended then q ++ some job ∷ [] else q

-- What enqueuing a job gives.
pub record Enqueued {Job : Type 0} (appended : Bool) (job : Job) (gjs end : GjsContext Job)
    : Type 0 where
  pub installed : IsInstalled end
  pub queue : end.job_queue ≡ pushed appended job gjs.job_queue
  pub draining : end.draining_job_queue ≡ gjs.draining_job_queue
  pub exiting : end.should_exit ≡ gjs.should_exit

module _ {Job : Type 0} (source : ℕ) (is_source : (source == 0) ≡ false) where
  start_draining_lem :
      (gjs : GjsContext Job) (h : Bool)
      → (gjs.idle_drain_handler == 0) ≡ h
      → is_empty gjs.job_queue ≡ false
      → IsInstalled (start_draining_job_queue source gjs)
  unfolding start_draining_job_queue
  start_draining_lem gjs true e full = ground (arith, is_source)
  start_draining_lem gjs false e full = ground arith

  start_draining-keeps :
      (gjs : GjsContext Job) (h : Bool)
      → (gjs.idle_drain_handler == 0) ≡ h
      → ((start_draining_job_queue source gjs).job_queue ≡ gjs.job_queue)
        × ((start_draining_job_queue source gjs).draining_job_queue ≡ gjs.draining_job_queue)
        × ((start_draining_job_queue source gjs).should_exit ≡ gjs.should_exit)
  unfolding start_draining_job_queue
  start_draining-keeps gjs true e = ground arith
  start_draining-keeps gjs false e = ground arith

  pub enqueue_promise_job-Ends :
      (appended : Bool) (job : Job) (gjs : GjsContext Job)
      → IsInstalled gjs
      → Ends (enqueue_promise_job source appended job gjs) (λ end. Enqueued appended job gjs end.0)
  unfolding enqueue_promise_job
  enqueue_promise_job-Ends appended job gjs h =
      Ends-if (same (is_empty gjs.job_queue) (gjs.idle_drain_handler == 0)) (λ _. added appended)
        (λ bad. absurd (ground (arith, h, bad)))
    where
      grown : GjsContext Job
      grown = record gjs { job_queue = gjs.job_queue ++ some job ∷ [] }

      added :
          (appended : Bool)
          → Ends {A = GjsContext Job × Bool}
              (if appended
                then some (start_draining_job_queue source grown, true)
                else some (gjs, false))
              (λ end. Enqueued appended job gjs end.0)
      added true =
          let (queue, draining, exiting) =
            start_draining-keeps grown (gjs.idle_drain_handler == 0) refl in
          (
            (start_draining_job_queue source grown, true),
            refl,
            record {
              installed =
                  start_draining_lem grown (gjs.idle_drain_handler == 0) refl
                    (is_empty-append gjs.job_queue (some job) []);
              queue = queue;
              draining = draining;
              exiting = exiting;
            },
          )
      added false = (
        (gjs, false),
        refl,
        record { installed = h; queue = refl; draining = refl; exiting = refl },
      )

  enqueue_promise_job-IsInstalled :
      (appended : Bool) (job : Job) (gjs : GjsContext Job)
      → IsInstalled gjs
      → Every (enqueue_promise_job source appended job gjs) (λ end. IsInstalled end.0)
  enqueue_promise_job-IsInstalled appended job gjs h a e =
      let (b, f, law) = enqueue_promise_job-Ends appended job gjs h in
      subst (λ (o : GjsContext Job × Bool). IsInstalled o.0) (some-injective _ _ (sym f ∙ e))
        law.installed

module _ {Job Script World : Type 0} (engine : Engine Job Script World)
    (is_source : (engine.idle_source == 0) ≡ false) where
  run_jobs_fallible-IsInstalled :
      (fuel : ℕ) (gjs : GjsContext Job) (w : World)
      → IsInstalled gjs
      → Every (run_jobs_fallible engine fuel gjs w) (λ end. IsInstalled end.1.0)
  unfolding run_jobs_fallible stop_draining_job_queue
  run_jobs_fallible-IsInstalled fuel gjs w h =
      Every-if (gjs.draining_job_queue || gjs.should_exit)
        (λ _. Every-some (λ (end : Bool × (GjsContext Job × World)). IsInstalled end.1.0) _ h)
        λ _.
          emptied-IsInstalled
            (run_loop engine fuel 0 true (record gjs { draining_job_queue = true }) w)
    where
      emptied-IsInstalled :
          (o : Option (Bool × (GjsContext Job × World)))
          → Every (o >>= emptied) (λ end. IsInstalled end.1.0)
      emptied-IsInstalled none =
          Every-none (λ (end : Bool × (GjsContext Job × World)). IsInstalled end.1.0)
      emptied-IsInstalled (some a) =
          Every-some (λ (end : Bool × (GjsContext Job × World)). IsInstalled end.1.0) _ refl

  Step-IsInstalled :
      {s t : GjsContext Job × World} → Step engine s t → IsInstalled s.0 → IsInstalled t.0
  unfolding exit reset_exit register_unhandled_promise_rejection
      unregister_unhandled_promise_rejection schedule_gc_internal trigger_gc_if_needed
  Step-IsInstalled (enqueues {gjs} appended r job e) h =
      enqueue_promise_job-IsInstalled engine.idle_source is_source appended job gjs h _ e
  Step-IsInstalled (runs {gjs} {w = w} fuel r e) h = run_jobs_fallible-IsInstalled fuel gjs w h _ e
  Step-IsInstalled (exits {gjs} code e) h =
      Every-if gjs.should_exit (λ _. Every-none (λ (g : GjsContext Job). IsInstalled g))
        (λ _. Every-some (λ (g : GjsContext Job). IsInstalled g) _ h) _ e
  Step-IsInstalled resets h = h
  Step-IsInstalled (registers id stack) h = h
  Step-IsInstalled (unregisters {gjs} id e) h =
      Every-if ((erase_stack id gjs.unhandled_rejection_stacks).1 == 1)
        (λ _. Every-some (λ (g : GjsContext Job). IsInstalled g) _ h)
        (λ _. Every-none (λ (g : GjsContext Job). IsInstalled g)) _ e
  Step-IsInstalled (schedules {gjs} force_gc) h = ground (arith, h)
  Step-IsInstalled triggers h = h

  Steps-IsInstalled :
      {s t : GjsContext Job × World} → Steps engine s t → IsInstalled s.0 → IsInstalled t.0
  Steps-IsInstalled start h = h
  Steps-IsInstalled (onward before step) h = Step-IsInstalled step (Steps-IsInstalled before h)

  -- From a context whose handler is installed exactly while the queue has slots, whatever jobs were
  -- then enqueued and run, exits asked for and reset, rejections registered and unregistered, and
  -- collections scheduled, in any order, but with no queue saved or restored: enqueuing a job fails no assertion, appends the job unless memory is
  -- out, and leaves the handler installed exactly while the queue has slots.
  pub enqueue_promise_job_lem :
      (s t : GjsContext Job × World) (appended : Bool) (job : Job)
      → IsInstalled s.0
      → Steps engine s t
      → Ends
          (enqueue_promise_job engine.idle_source appended job t.0)
          (λ end. Enqueued appended job t.0 end.0)
  enqueue_promise_job_lem s t appended job h steps =
      enqueue_promise_job-Ends engine.idle_source is_source appended job t.0
        (Steps-IsInstalled steps h)

  -- What enqueuing several jobs gives.
  pub record AllEnqueued (es : List (Bool × Job)) (gjs end : GjsContext Job) : Type 0 where
    pub installed : IsInstalled end
    pub queue : end.job_queue ≡ gjs.job_queue ++ map some (enqueued es)
    pub draining : end.draining_job_queue ≡ gjs.draining_job_queue
    pub exiting : end.should_exit ≡ gjs.should_exit

  pushed-append :
      (appended : Bool) (job : Job) (es : List (Bool × Job)) (q : List (Option Job))
      → pushed appended job q ++ map some (enqueued es)
        ≡ q ++ map some (enqueued ((appended, job) ∷ es))
  pushed-append true job es q = append_assoc q (some job ∷ []) (map some (enqueued es))
  pushed-append false job es q = refl

  pub enqueue_all-Ends :
      (es : List (Bool × Job)) (gjs : GjsContext Job)
      → IsInstalled gjs
      → Ends (enqueue_all engine es gjs) (AllEnqueued es gjs)
  unfolding enqueue_all
  enqueue_all-Ends [] gjs h = (
    gjs,
    refl,
    record {
      installed = h;
      queue = sym (append-nil gjs.job_queue);
      draining = refl;
      exiting = refl;
    },
  )
  enqueue_all-Ends ((appended, job) ∷ es) gjs h =
      let ((gjs', r), e, one) =
        enqueue_promise_job-Ends engine.idle_source is_source appended job gjs h in
      let (end, f, rest) = enqueue_all-Ends es gjs' one.installed in
      (
        end,
        ap (λ o. o >>= λ done. enqueue_all engine es done.0) e ∙ f,
        record {
          installed = rest.installed;
          queue =
              rest.queue
              ∙ ap (λ q. q ++ map some (enqueued es)) one.queue
              ∙ pushed-append appended job es gjs.job_queue;
          draining = rest.draining ∙ one.draining;
          exiting = rest.exiting ∙ one.exiting;
        },
      )
