-- ===== src/Context/Reference.antt =====
-- The order in which promise jobs run (cjs/context.cpp), described by a queue that is popped at
-- its front: the jobs that a job enqueues run after those that are there, and an exit stops.
use cjs.Prelude.{
  ℕ, zero, suc, ◌%◌, ◌≡◌, Bool, true, false, Option, none, some, List, [], ◌∷◌, ◌++◌, ◌==◌,
}
use cjs.Root.{is_some}
use cjs.Context.{GjsContext, is_empty, same}
use cjs.Context.Run.{Engine, after_call}

module _ {Job : Type 0} where
  -- The jobs that have not run.
  abbrev pub live : List (Option Job) → List Job
  live [] = []
  live (none ∷ slots) = live slots
  live (some job ∷ slots) = job ∷ live slots

  abbrev pub nulls : List (Option Job) → ℕ
  nulls [] = 0
  nulls (none ∷ slots) = suc (nulls slots)
  nulls (some _ ∷ slots) = nulls slots

  abbrev pub enqueued : List (Bool × Job) → List Job
  enqueued [] = []
  enqueued ((true, job) ∷ rest) = job ∷ enqueued rest
  enqueued ((false, job) ∷ rest) = enqueued rest

  -- The idle handler is installed exactly while the queue has slots.
  abbrev pub IsInstalled : GjsContext Job → Type 0
  IsInstalled gjs = same (is_empty gjs.job_queue) (gjs.idle_drain_handler == 0) ≡ true

  abbrev pub exited : Option ℕ → GjsContext Job → GjsContext Job
  exited none gjs = gjs
  exited (some code) gjs = record gjs { should_exit = true; exit_code = code % 256 }

  -- The context after the jobs have run.
  abbrev pub settled : Option ℕ → GjsContext Job → GjsContext Job
  settled exits gjs =
      exited exits
        (record gjs { job_queue = []; draining_job_queue = false; idle_drain_handler = 0 })

module _ {Job Script World : Type 0} (engine : Engine Job Script World) where
  -- What the jobs return together, the exit code if one exits, and the world after them.
  abbrev pub Drained : Type 0
  Drained = Bool × (Option ℕ × World)

  -- At most `n` steps, one for each job and one for the end.
  unfoldable pub drain : ℕ → List Job → Bool → World → Option Drained
  unfolding after_call
  drain zero jobs retval w = none
  drain (suc n) [] retval w = some (retval, (none, w))
  drain (suc n) (job ∷ jobs) retval w =
      let ((returned, effects), w1) = engine.call job w in
      let (retval', w2) = after_call engine returned (is_some effects.exits) retval w1 in
      elim effects.exits [
        | some code ↦ some (retval', (some code, w2))
        | none ↦ drain n (jobs ++ enqueued effects.enqueues) retval' w2
      ]
