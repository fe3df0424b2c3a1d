-- ===== src/Context/Drains.antt =====
-- The index loop of GjsContextPrivate::run_jobs_fallible (cjs/context.cpp) against the queue that
-- is popped at its front.
use mathlib.Core.List.{append_assoc}
use cjs.Prelude.Options.{◌>>=◌}
use cjs.Prelude.{
  ℕ, zero, suc, ◌+◌, ◌<◌, ◌≡◌, refl, sym, ap, ◌∙◌, Bool, true, false, Option, none, some, List, [],
  ◌∷◌, ◌++◌, map, arith, ◌==◌, get_elem?, length, inl, inr, Option-cases,
}
use cjs.Root.{is_some}
use cjs.Function.Order.{Every, Every-some, Every-none}
use cjs.Context.{GjsContext, is_empty, same, stop_draining_job_queue}
use cjs.Context.Run.{Engine, Effects, after_call, run_loop, emptied, run_jobs_fallible}
use cjs.Context.Reference.{live, nulls, enqueued, IsInstalled, exited, settled, Drained, drain}
use cjs.Context.Queueing.{
  get_elem?-append, get_elem?-end, set-append, is_empty-append, live-append, nulls-append,
  length-snoc, perform_lem, should_exit-exited, same-false,
}

module _ {Job Script World : Type 0} (engine : Engine Job Script World) where
  -- One round of the loop, at a job.
  abbrev round :
      (Bool × Effects Job) × World
      → List (Option Job)
      → ℕ
      → ℕ
      → Bool
      → GjsContext Job
      → Option (Bool × (GjsContext Job × World))
  round ((returned, effects), w) slots k ix retval gjs =
      let (retval', w') = after_call engine returned (is_some effects.exits) retval w in
      run_loop engine k ix retval'
        (exited effects.exits
          (record gjs { job_queue = slots ++ map some (enqueued effects.enqueues) }))
        w'

  run_loop-job :
      (before : List (Option Job)) (job : Job) (slots : List (Option Job)) (k : ℕ) (retval : Bool)
      (gjs : GjsContext Job) (w : World)
      → gjs.job_queue ≡ before ++ some job ∷ slots
      → (gjs.idle_drain_handler == 0) ≡ false
      → gjs.should_exit ≡ false
      → run_loop engine (suc k) (length before) retval gjs w
        ≡ round (engine.call job w) (before ++ none ∷ slots) k (suc (length before)) retval gjs
  unfolding run_loop
  run_loop-job before job slots k retval gjs w e h running =
      let ((returned, effects), w') = engine.call job w in
      let cleared = record gjs { job_queue = before ++ none ∷ slots; should_exit = false } in
      let pushed = record cleared {
        job_queue = (before ++ none ∷ slots) ++ map some (enqueued effects.enqueues);
      } in
      rw (
        run_loop,
        e,
        get_elem?-append before (some job) slots,
        running,
        e,
        set-append before (some job) none slots,
        running,
        perform_lem engine effects cleared (is_empty-append before none slots) h refl,
        should_exit-exited engine effects.exits pushed refl,
      )

  run_loop-exiting :
      (k ix : ℕ) (retval : Bool) (gjs : GjsContext Job) (w : World)
      → gjs.should_exit ≡ true
      → run_loop engine (suc k) ix retval gjs w ≡ some (retval, (gjs, w))
  unfolding run_loop
  run_loop-exiting k ix retval gjs w exiting = elim (Option-cases (get_elem? gjs.job_queue ix)) [
    | inl e ↦ rw (run_loop, e)
    | inr (slot, e) ↦ simp (run_loop, e, exiting)
  ]

  run_loop-null :
      (before slots : List (Option Job)) (k : ℕ) (retval : Bool) (gjs : GjsContext Job) (w : World)
      → gjs.job_queue ≡ before ++ none ∷ slots
      → gjs.should_exit ≡ false
      → run_loop engine (suc k) (length before) retval gjs w
        ≡ run_loop engine k (length (before ++ none ∷ [])) retval gjs w
  unfolding run_loop
  run_loop-null before slots k retval gjs w e running =
      simp (run_loop, e, get_elem?-append before none slots, running, length-snoc before none)

  run_loop-end :
      (before : List (Option Job)) (k : ℕ) (retval : Bool) (gjs : GjsContext Job) (w : World)
      → gjs.job_queue ≡ before ++ []
      → run_loop engine (suc k) (length before) retval gjs w ≡ some (retval, (gjs, w))
  unfolding run_loop
  run_loop-end before k retval gjs w e = simp (run_loop, e, get_elem?-end before)

  -- The world after one job, and `retval`.
  abbrev pub after : Job → World → Bool → Bool → Bool × World
  after job w exiting retval =
      after_call engine (engine.call job w).0.0 exiting retval (engine.call job w).1

  abbrev pub effects : Job → World → Effects Job
  effects job w = (engine.call job w).0.1

  pub drain-stays :
      (n : ℕ) (job : Job) (jobs : List Job) (retval : Bool) (w : World)
      → (effects job w).exits ≡ none
      → drain engine (suc n) (job ∷ jobs) retval w
        ≡ drain engine n
            (jobs ++ enqueued (effects job w).enqueues)
            (after job w false retval).0
            (after job w false retval).1
  unfolding drain
  drain-stays n job jobs retval w e = rw (drain, e) rw e

  pub drain-exits :
      (n code : ℕ) (job : Job) (jobs : List Job) (retval : Bool) (w : World)
      → (effects job w).exits ≡ some code
      → drain engine (suc n) (job ∷ jobs) retval w
        ≡ some ((after job w true retval).0, (some code, (after job w true retval).1))
  unfolding drain
  drain-exits n code job jobs retval w e = rw (drain, e) rw e

  module _ (before : List (Option Job)) (job : Job) (slots : List (Option Job)) (retval : Bool)
      (gjs : GjsContext Job) (w : World) where
    abbrev grown : GjsContext Job
    grown = record gjs {
      job_queue = (before ++ none ∷ slots) ++ map some (enqueued (effects job w).enqueues);
    }

    run_loop-stays :
        (k : ℕ)
        → gjs.job_queue ≡ before ++ some job ∷ slots
        → (gjs.idle_drain_handler == 0) ≡ false
        → gjs.should_exit ≡ false
        → (effects job w).exits ≡ none
        → run_loop engine (suc k) (length before) retval gjs w
          ≡ run_loop engine k
              (length (before ++ none ∷ []))
              (after job w false retval).0
              grown
              (after job w false retval).1
    run_loop-stays k e h running stays =
        run_loop-job before job slots k retval gjs w e h running
        ∙ rw (stays, length-snoc before none)

    run_loop-exits :
        (k code : ℕ)
        → gjs.job_queue ≡ before ++ some job ∷ slots
        → (gjs.idle_drain_handler == 0) ≡ false
        → gjs.should_exit ≡ false
        → (effects job w).exits ≡ some code
        → run_loop engine (suc (suc k)) (length before) retval gjs w
          ≡ some
              ((after job w true retval).0, (exited (some code) grown, (after job w true retval).1))
    run_loop-exits k code e h running leaves =
        run_loop-job before job slots (suc k) retval gjs w e h running
        ∙ rw leaves (
            run_loop-exiting k (suc (length before)) (after job w true retval).0
              (exited (some code) grown) (after job w true retval).1 refl)

  abbrev Reaches : ℕ → ℕ → Bool → GjsContext Job → World → Drained engine → Type 0
  Reaches k ix retval gjs w (r, (exits, w')) =
      (q : List (Option Job)) × (run_loop engine k ix retval gjs w
        ≡ some (r, (exited exits (record gjs { job_queue = q }), w')))

  run_loop_lem :
      (k n : ℕ) (before slots : List (Option Job)) (retval : Bool) (gjs : GjsContext Job)
      (w : World)
      → gjs.job_queue ≡ before ++ slots
      → (gjs.idle_drain_handler == 0) ≡ false
      → gjs.should_exit ≡ false
      → n + nulls slots < k
      → Every (drain engine n (live slots) retval w) (Reaches k (length before) retval gjs w)
  unfolding drain
  run_loop_lem zero n before slots retval gjs w e h running fuel a ran = absurd (omega arith)
  run_loop_lem (suc k) zero before [] retval gjs w e h running fuel a ran =
      Every-none (Reaches (suc k) (length before) retval gjs w) a ran
  run_loop_lem (suc k) (suc n) before [] retval gjs w e h running fuel a ran =
      Every-some (Reaches (suc k) (length before) retval gjs w) (retval, (none, w))
        (gjs.job_queue, run_loop-end before k retval gjs w e) a ran
  run_loop_lem (suc k) n before (none ∷ slots) retval gjs w e h running fuel a ran =
      let (q, reached) =
        run_loop_lem k n (before ++ none ∷ []) slots retval gjs w
          (e ∙ sym (append_assoc before (none ∷ []) slots)) h running (omega arith) a ran in
      (q, run_loop-null before slots k retval gjs w e running ∙ reached)
  run_loop_lem (suc k) zero before (some job ∷ slots) retval gjs w e h running fuel a ran =
      Every-none (Reaches (suc k) (length before) retval gjs w) a ran
  run_loop_lem (suc zero) (suc n) before (some job ∷ slots) retval gjs w e h running fuel a ran =
      absurd (omega arith)
  run_loop_lem (suc (suc k)) (suc n) before (some job ∷ slots) retval gjs w e h running fuel a ran =
      let added = enqueued (effects job w).enqueues in
      elim (Option-cases (effects job w).exits) [
        | inl stays ↦
            let (q, reached) =
              run_loop_lem (suc k) n (before ++ none ∷ []) (slots ++ map some added)
                (after job w false retval).0 (grown before job slots retval gjs w)
                (after job w false retval).1
                (append_assoc before (none ∷ slots) (map some added)
                  ∙ sym (append_assoc before (none ∷ []) (slots ++ map some added)))
                h running (omega (arith, nulls-append slots added)) a
                (ap
                    (λ jobs.
                      drain engine n jobs (after job w false retval).0 (after job w false retval).1)
                    (live-append slots added)
                  ∙ sym (drain-stays n job (live slots) retval w stays)
                  ∙ ran) in
            (q, run_loop-stays before job slots retval gjs w (suc k) e h running stays ∙ reached)
        | inr (code, leaves) ↦
            Every-some (Reaches (suc (suc k)) (length before) retval gjs w) _
              (
                (grown before job slots retval gjs w).job_queue,
                run_loop-exits before job slots retval gjs w k code e h running leaves,
              )
              a (sym (drain-exits n code job (live slots) retval w leaves) ∙ ran)
      ]

  starts :
      (q : List (Option Job)) (fuel n : ℕ) (gjs : GjsContext Job) (w : World)
      → gjs.job_queue ≡ q
      → same (is_empty q) (gjs.idle_drain_handler == 0) ≡ true
      → gjs.should_exit ≡ false
      → n + nulls q < fuel
      → Every (drain engine n (live q) true w) (Reaches fuel 0 true gjs w)
  unfolding drain
  starts q zero n gjs w e installed running enough a ran = absurd (omega arith)
  starts [] (suc k) zero gjs w e installed running enough a ran =
      Every-none (Reaches (suc k) 0 true gjs w) a ran
  starts [] (suc k) (suc n) gjs w e installed running enough a ran =
      Every-some (Reaches (suc k) 0 true gjs w) (true, (none, w))
        (gjs.job_queue, run_loop-end [] k true gjs w e) a ran
  starts (slot ∷ slots) (suc k) n gjs w e installed running enough a ran =
      run_loop_lem (suc k) n [] (slot ∷ slots) true gjs w e
        (same-false (gjs.idle_drain_handler == 0) installed) running enough a ran

  run_jobs_fallible-runs :
      (fuel : ℕ) (gjs : GjsContext Job) (w : World)
      → gjs.draining_job_queue ≡ false
      → gjs.should_exit ≡ false
      → run_jobs_fallible engine fuel gjs w
        ≡ (run_loop engine fuel 0 true (record gjs { draining_job_queue = true }) w >>= emptied)
  unfolding run_jobs_fallible
  run_jobs_fallible-runs fuel gjs w idle running = simp (run_jobs_fallible, idle, running)

  emptied_lem :
      (exits : Option ℕ) (q : List (Option Job)) (retval : Bool) (gjs : GjsContext Job) (w : World)
      → emptied
          (retval, (exited exits (record gjs { draining_job_queue = true; job_queue = q }), w))
        ≡ some (retval, (settled exits gjs, w))
  unfolding stop_draining_job_queue
  emptied_lem none q retval gjs w = refl
  emptied_lem (some code) q retval gjs w = refl

  -- With the idle handler installed exactly while there are slots, and with more fuel than the jobs
  -- and the empty slots need: the loop over the growing array runs what a queue popped at its front
  -- runs, in that order, and gives what that gives; the array is left empty, the handler removed and
  -- the exit code of a job that exits kept.
  pub run_jobs_fallible_lem :
      (fuel n : ℕ) (gjs : GjsContext Job) (w : World) (a : Drained engine)
      → IsInstalled gjs
      → gjs.draining_job_queue ≡ false
      → gjs.should_exit ≡ false
      → n + nulls gjs.job_queue < fuel
      → drain engine n (live gjs.job_queue) true w ≡ some a
      → run_jobs_fallible engine fuel gjs w ≡ some (a.0, (settled a.1.0 gjs, a.1.1))
  run_jobs_fallible_lem fuel n gjs w a installed idle running enough ran =
      let (q, reached) =
        starts gjs.job_queue fuel n (record gjs { draining_job_queue = true }) w refl installed
          running enough a ran in
      run_jobs_fallible-runs fuel gjs w idle running
      ∙ ap (λ o. o >>= emptied) reached
      ∙ emptied_lem a.1.0 q a.0 gjs a.1.1
