-- ===== src/Context/Queueing.antt =====
-- Enqueuing while the queue of promise jobs has slots (cjs/context.cpp), and the slots by their
-- place.
use mathlib.Core.List.{append_assoc, append-nil}
use cjs.Prelude.{
  ℕ, suc, ◌≡◌, refl, ap, Bool, true, false, Option, none, some, List, [], ◌∷◌, ◌++◌, map, arith,
  ◌==◌, get_elem?, set, length,
}
use cjs.Root.{is_some}
use cjs.Context.{GjsContext, is_empty, same, enqueue_promise_job, start_draining_job_queue, exit}
use cjs.Context.Run.{Engine, Effects, enqueue_all, maybe_exit, perform}
use cjs.Context.Reference.{live, nulls, enqueued, exited}

module _ {ℓ} {A : Type ℓ} where
  pub get_elem?-append :
      (xs : List A) (y : A) (ys : List A) → get_elem? (xs ++ y ∷ ys) (length xs) ≡ some y
  get_elem?-append [] y ys = refl
  get_elem?-append (x ∷ xs) y ys = get_elem?-append xs y ys

  pub get_elem?-end : (xs : List A) → get_elem? (xs ++ []) (length xs) ≡ none
  get_elem?-end [] = refl
  get_elem?-end (x ∷ xs) = get_elem?-end xs

  pub set-append :
      (xs : List A) (y z : A) (ys : List A) → set (xs ++ y ∷ ys) (length xs) z ≡ xs ++ z ∷ ys
  set-append [] y z ys = refl
  set-append (x ∷ xs) y z ys = ap (λ (l : List A). x ∷ l) (set-append xs y z ys)

  pub is_empty-append : (xs : List A) (y : A) (ys : List A) → is_empty (xs ++ y ∷ ys) ≡ false
  is_empty-append [] y ys = refl
  is_empty-append (x ∷ xs) y ys = refl

pub same-false : (b : Bool) → same false b ≡ true → b ≡ false
same-false true h = absurd (ground arith)
same-false false h = refl

pub maybe_exit_lem :
    {Job : Type 0} (exits : Option ℕ) (gjs : GjsContext Job)
    → gjs.should_exit ≡ false
    → maybe_exit exits gjs ≡ some (exited exits gjs)
unfolding exit
maybe_exit_lem none gjs running = refl
maybe_exit_lem (some code) gjs running = rw running

pub live-append :
    {Job : Type 0} (slots : List (Option Job)) (jobs : List Job)
    → live (slots ++ map some jobs) ≡ live slots ++ jobs
live-append [] [] = refl
live-append [] (job ∷ jobs) = ap (λ l. job ∷ l) (live-append [] jobs)
live-append (none ∷ slots) jobs = live-append slots jobs
live-append (some job ∷ slots) jobs = ap (λ l. job ∷ l) (live-append slots jobs)

pub nulls-append :
    {Job : Type 0} (slots : List (Option Job)) (jobs : List Job)
    → nulls (slots ++ map some jobs) ≡ nulls slots
nulls-append [] [] = refl
nulls-append [] (job ∷ jobs) = nulls-append [] jobs
nulls-append (none ∷ slots) jobs = ap suc (nulls-append slots jobs)
nulls-append (some job ∷ slots) jobs = nulls-append slots jobs

pub length-snoc {ℓ} : {A : Type ℓ} (xs : List A) (y : A) → length (xs ++ y ∷ []) ≡ suc (length xs)
length-snoc [] y = refl
length-snoc (x ∷ xs) y = ap suc (length-snoc xs y)

module _ {Job Script World : Type 0} (engine : Engine Job Script World) where
  -- While there are slots and the handler is installed, every job is appended.
  pub enqueue_all_lem :
      (es : List (Bool × Job)) (gjs : GjsContext Job)
      → is_empty gjs.job_queue ≡ false
      → (gjs.idle_drain_handler == 0) ≡ false
      → enqueue_all engine es gjs
        ≡ some (record gjs { job_queue = gjs.job_queue ++ map some (enqueued es) })
  unfolding enqueue_all enqueue_promise_job start_draining_job_queue
  enqueue_all_lem [] gjs h k = rw (append-nil gjs.job_queue)
  enqueue_all_lem ((false, job) ∷ es) gjs h k = rw (h, k, enqueue_all_lem es gjs h k)
  enqueue_all_lem ((true, job) ∷ es) gjs h k =
      let pushed = record gjs { job_queue = gjs.job_queue ++ some job ∷ [] } in
      rw (h, k, enqueue_all_lem es pushed (is_empty-append gjs.job_queue (some job) []) k) rw
        (append_assoc gjs.job_queue (some job ∷ []) (map some (enqueued es)))

  pub perform_lem :
      (effects : Effects Job) (gjs : GjsContext Job)
      → is_empty gjs.job_queue ≡ false
      → (gjs.idle_drain_handler == 0) ≡ false
      → gjs.should_exit ≡ false
      → perform engine effects gjs
        ≡ some (
            exited effects.exits
              (record gjs { job_queue = gjs.job_queue ++ map some (enqueued effects.enqueues) }))
  unfolding perform
  perform_lem effects gjs h k running = rw (enqueue_all_lem effects.enqueues gjs h k) (
      maybe_exit_lem effects.exits
        (record gjs { job_queue = gjs.job_queue ++ map some (enqueued effects.enqueues) }) running)

  pub should_exit-exited :
      (exits : Option ℕ) (gjs : GjsContext Job)
      → gjs.should_exit ≡ false
      → (exited exits gjs).should_exit ≡ is_some exits
  should_exit-exited none gjs running = running
  should_exit-exited (some code) gjs running = refl
