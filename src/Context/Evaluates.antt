-- ===== src/Context/Evaluates.antt =====
-- What GjsContextPrivate::eval (cjs/context.cpp) gives its caller.
use cjs.Prelude.Int.{ℤ, pos}
use cjs.Prelude.{
  ℕ, suc, ◌+◌, ◌<◌, ◌≡◌, Bool, true, false, Option, none, some, ◌==◌, not, if◌then◌else◌, ◌%◌, ◌⊎◌,
}
use cjs.Root.{is_some}
use cjs.Function.Loops.{Ends}
use cjs.Context.{GjsContext}
use cjs.Context.Run.{Engine}
use cjs.Context.Eval.{EvalEnd, EvalError, success_status, system_exit}
use cjs.Context.Reference.{live, nulls, enqueued, IsInstalled, exited}
use cjs.Context.Ends.{total, FromJob}

pub if-elim {ℓ κ} :
    {A : Type ℓ} (P : A → Type κ) (b : Bool) {x y : A} → P x → P y → P (if b then x else y)
if-elim P true h k = h
if-elim P false h k = k

module _ {Job Script World : Type 0} (engine : Engine Job Script World) (budget : Job → ℕ) where
  -- The jobs of a context can run on the fuel.
  pub record Fits (fuel : ℕ) (gjs : GjsContext Job) : Type 0 where
    pub installed : IsInstalled gjs
    pub idle : gjs.draining_job_queue ≡ false
    pub enough : suc (total budget (live gjs.job_queue)) + nulls gjs.job_queue < fuel

  -- A pending exit has a code for which something holds.
  abbrev pub ExitedWith : (ℕ → Type 0) → GjsContext Job → Type 0
  ExitedWith From gjs =
      gjs.should_exit ≡ true → (code : ℕ) × From code × (gjs.exit_code ≡ code % 256)

  -- What is known of a script that was evaluated: its context can go on, its value is that of the
  -- engine if it succeeded, and an exit is its own.
  pub record Evaluated (fuel : ℕ) (returned : Option ℤ) (From : ℕ → Type 0)
      (end : (Bool × Option ℤ) × (GjsContext Job × World)) : Type 0 where
    pub fits : Fits fuel end.1.0
    pub value : end.0.0 ≡ true → end.0.1 ≡ returned
    pub exited : ExitedWith From end.1.0

  module _ (is_source : (engine.idle_source == 0) ≡ false)
      (shrinks : (job : Job) (w : World)
        → total budget (enqueued (engine.call job w).0.1.enqueues) < budget job) where
    -- An exit is that of the script, or of a job.
    abbrev pub Exits : (script : Script) → World → ℕ → Type 0
    Exits script w code =
        ((engine.evaluate script (engine.prepare_script script w).1).0.1.exits ≡ some code)
        ⊎ FromJob engine budget shrinks code

-- The exit status that goes with an error, or with the value of a script that succeeded.
abbrev pub status_for : Option EvalError → Option ℤ → ℤ
status_for none retval = success_status retval
status_for (some (system_exit code)) retval = pos code
status_for (some _) retval = pos 1

-- What the caller is told, where the script returned an integer or not, and where a code of an exit
-- is known to come from somewhere.
pub record Reports (returned : Option ℤ) (From : ℕ → Type 0) (end : EvalEnd) : Type 0 where
  pub error : is_some end.error ≡ not end.result
  pub status : end.exit_status ≡ some (status_for end.error returned)
  pub exited :
      (code : ℕ)
      → end.error ≡ some (system_exit code)
      → (asked : ℕ) × From asked × (code ≡ asked % 256)

code_of : ℕ → EvalError → ℕ
code_of code (system_exit code') = code'
code_of code _ = code

module _ {Job Script World : Type 0} (engine : Engine Job Script World) (budget : Job → ℕ)
    (is_source : (engine.idle_source == 0) ≡ false)
    (shrinks : (job : Job) (w : World)
      → total budget (enqueued (engine.call job w).0.1.enqueues) < budget job) where
  -- `returned` is the integer of the script, if it returns one.
  pub record EvalLaw (script : Script) (w : World) (x : EvalEnd × (GjsContext Job × World))
      : Type 0 where
    pub reports :
        Reports
          (engine.evaluate script (engine.prepare_script script w).1).0.0.1
          (Exits engine budget is_source shrinks script w)
          x.0
    pub installed : IsInstalled x.1.0
    pub should_exit : x.1.0.should_exit ≡ false
    pub exit_code : x.1.0.exit_code ≡ 0
