-- ===== src/Function/Completes.antt =====
-- A call of a function (gjs_invoke_c_function of gi/function.cpp) comes to an end without a failed
-- assertion.
use cjs.Prelude.Options.{◌>>=◌}
use cjs.Prelude.{
  ℕ, suc, ◌+◌, ◌≤◌, ◌≡◌, refl, sym, ap, ◌∙◌, Bool, true, false, Option, none, some, List, [], ◌∷◌,
  if◌then◌else◌, ◌==◌, ◌&&◌, ◌||◌, not, ltb, arith, length, Bool-cases, inl, inr,
}
use cjs.Cache.Defs.{max_args}
use cjs.Cache.Build.{is_some}
use cjs.Cache.Tables.{has_in}
use cjs.Function.Init.{Function, instance_at, return_at, indexed, all_caches}
use cjs.Function.Engine.{Engine}
use cjs.Function.Invoke.{Outcome, bool_nat, has_table}
use cjs.Function.Loops.{
  Ends, Ends-if, Ends-some, Ends-match, All, gives_all-indexed, length-indexed, in_loop_lem,
  out_loop_lem, release_loop_lem,
}
use cjs.Function.Call.{
  Progress, this_of, instance_in, ffi_arg_pointers, invoke, set_rval, conclude, finish,
  convert_and_invoke, with_this, gjs_invoke_c_function,
}
use cjs.Function.Ready.{
  has_out-has_table, has_in-has_table, All-has_table, IsReady, length-ffi_arg_pointers,
}

abbrev Done : {A : Type 0} → A → Type 0
Done _ = Unit

Ends->>= {ℓ κ μ} :
    {A : Type ℓ} {B : Type μ} {P : A → Type κ} {Q : B → Type κ} {o : Option A} {f : A → Option B}
    → Ends o P
    → ((a : A) → P a → Ends (f a) Q)
    → Ends (o >>= f) Q
Ends->>= {o} {f} (a, e, p) h = rw e (h a p)

module _ {State Value : Type 0} (engine : Engine State Value) (function : Function)
    (ready : IsReady engine.nargs function) where
  method : ℕ
  method = bool_nat function.info.is_method

  -- What holds at the label `release`.
  record IsReleasable (keep : Bool) (p : Progress State Value) : Type 0 where
    lower : bool_nat function.info.is_method ≤ p.processed_c_args
    upper : p.processed_c_args ≤ bool_nat function.info.is_method + length function.arguments
    values :
        p.failed ≡ false
        → p.did_throw_gerror ≡ false
        → keep ≡ false
        → length p.return_values ≡ function.js_out_argc

  invoke-Ends :
      (keep : Bool) (processed : ℕ) (s : State)
      → bool_nat function.info.is_method ≤ processed
      → processed ≤ bool_nat function.info.is_method + length function.arguments
      → Ends (invoke engine function keep processed s) (IsReleasable keep)
  unfolding invoke
  invoke-Ends keep processed s low high =
      Ends-if (not (length (ffi_arg_pointers function) == engine.nargs))
        (λ bad. absurd (ground (arith, length-ffi_arg_pointers engine.nargs function ready)))
        λ _.
          Ends->>=
            (out_loop_lem engine keep
              ((return_at, function.return_value) ∷ indexed 0 function.arguments) 0 [] _
              (ready.return_out, ready.args_out) (λ _. refl))
            λ end law.
              Ends-if (end.failed || (threw || end.js_arg_pos == function.js_out_argc))
                (λ fine. Ends-some _ (record {
                  lower = low;
                  upper = high;
                  values = λ ok_so_far no_error plain. law.values plain ∙ ground arith;
                }))
                λ bad. absurd (
                  ground
                    (arith, law.counted, ready.counted, gives_all-indexed 0 function.arguments))
    where
      threw : Bool
      threw =
          function.info.can_throw_gerror
          && engine.has_local_error (engine.ffi_call (ffi_arg_pointers function) s)

  conclude-Ends :
      (keep failed did_throw : Bool) (values : List Value) (s : State)
      → (failed ≡ false → did_throw ≡ false → keep ≡ false → length values ≡ function.js_out_argc)
      → Ends (conclude engine function keep failed did_throw values s) Done
  unfolding conclude set_rval
  conclude-Ends keep true did_throw values s h = Ends-some _ tt
  conclude-Ends keep false true values s h = Ends-some _ tt
  conclude-Ends true false false values s h = Ends-some _ tt
  conclude-Ends false false false values s h =
      Ends-if (ltb 0 function.js_out_argc)
        (λ some_out.
          Ends-if (function.js_out_argc == 1) (λ one. only values (h refl refl refl) one)
            λ _. Ends-match _ (Ends-some _ tt) (λ _. Ends-some _ tt))
        (λ _. Ends-some _ tt)
    where
      only :
          (values : List Value)
          → length values ≡ function.js_out_argc
          → (function.js_out_argc == 1) ≡ true
          → Ends {A = Outcome Value × State}
              (elim values [ [] ↦ none | value ∷ _ ↦ some (Outcome.returned value, s) ])
              Done
      only [] e one = absurd (ground arith)
      only (v ∷ vs) e one = Ends-some _ tt

  length-all_caches :
      length (all_caches function)
      ≡ suc (bool_nat function.info.is_method + length function.arguments)
  unfolding all_caches
  length-all_caches = elim (Bool-cases function.info.is_method) [
    | inl e ↦ rw e (omega (arith, length-indexed 0 function.arguments))
    | inr e ↦ rw e (omega (arith, length-indexed 0 function.arguments))
  ]

  all_caches-has_table : All has_table (all_caches function)
  unfolding all_caches
  all_caches-has_table = elim (Bool-cases function.info.is_method) [
    | inl e ↦ rw e (has_in-has_table function.instance_arg (ready.method_in e), rest)
    | inr e ↦ rw e rest
  ]
    where
      rest : All has_table ((return_at, function.return_value) ∷ indexed 0 function.arguments)
      rest = (
        has_out-has_table function.return_value ready.return_out,
        All-has_table 0 function.arguments ready.args_out,
      )

  finish-Ends :
      (keep : Bool) (p : Progress State Value)
      → IsReleasable keep p
      → Ends (finish engine function keep p) Done
  unfolding finish
  finish-Ends keep p h =
      Ends->>=
        (release_loop_lem engine keep p.failed _
          (p.processed_c_args + (bool_nat function.info.is_method + 1)) (all_caches function)
          (bool_nat function.info.is_method) false p.state all_caches-has_table (omega arith)
          (omega (arith, h.upper, length-all_caches)))
        λ end there.
          Ends-if (end.ffi_arg_pos == p.processed_c_args + (bool_nat function.info.is_method + 1))
            (λ _.
              conclude-Ends keep (p.failed || end.release_failed) p.did_throw_gerror p.return_values
                end.state (λ fine no_error plain. h.values (ground arith) no_error plain))
            λ bad. absurd (ground (arith, there))

  convert_and_invoke-Ends :
      (args : List Value) (keep : Bool) (n : ℕ) (s : State)
      → n ≡ bool_nat function.info.is_method
      → Ends (convert_and_invoke engine function args keep n s) Done
  unfolding convert_and_invoke
  convert_and_invoke-Ends args keep n s start =
      Ends->>=
        (in_loop_lem engine args (indexed 0 function.arguments) 0 n s
          (All-has_table 0 function.arguments ready.args_out))
        λ end law.
          let low : bool_nat function.info.is_method ≤ end.processed_c_args =
            omega (arith, law.lower) in
          let high : end.processed_c_args
              ≤ bool_nat function.info.is_method + length function.arguments =
            omega (arith, law.upper, length-indexed 0 function.arguments) in
          Ends->>=
            (Ends-if {P = IsReleasable keep} end.failed
              (λ _.
                Ends-some _ (record {
                  lower = low;
                  upper = high;
                  values = λ fine _ _. absurd (ground arith);
                }))
              (λ _. invoke-Ends keep end.processed_c_args end.state low high))
            (finish-Ends keep)

  with_this-Ends :
      (args : List Value) (keep : Bool) (this : Option Value) (s : State)
      → (this ≡ none → function.info.is_method ≡ false)
      → Ends (with_this engine function args keep this s) Done
  unfolding with_this instance_in
  with_this-Ends args keep none s h =
      Ends-if (not function.info.is_method)
        (λ plain. convert_and_invoke-Ends args keep 0 s (ground arith))
        λ is_method. absurd (ground (arith, h refl))
  with_this-Ends args keep (some value) s h =
      Ends-if (not function.info.is_method)
        (λ plain. convert_and_invoke-Ends args keep 0 s (ground arith))
        λ is_method.
          let (done, s') = engine.marshal_in instance_at function.instance_arg value s in
          Ends->>=
            (Ends-if {P = Done} (not (has_in function.instance_arg.marshallers))
              (λ bare. absurd (ground (arith, ready.method_in))) λ _. Ends-some _ tt)
            λ started _.
              Ends-if started.0 (λ _. convert_and_invoke-Ends args keep 1 started.1 (ground arith))
                λ _. Ends-some _ tt

  -- A call of a function that is ready has an outcome, whatever the marshallers, the C function and
  -- the JavaScript engine answer: no assertion fails and no null pointer is called. No object is
  -- passed beforehand unless it is a construction, and one is where a method constructs.
  pub gjs_invoke_c_function-Ends :
      (args : List Value) (constructing : Bool) (this_obj : Option Value) (keep : Bool) (s : State)
      → (constructing ≡ false → this_obj ≡ none)
      → (constructing ≡ true → this_obj ≡ none → function.info.is_method ≡ false)
      → (outcome : Outcome Value × State) × (gjs_invoke_c_function engine function args constructing
            this_obj keep s
          ≡ some outcome)
  unfolding gjs_invoke_c_function
  gjs_invoke_c_function-Ends args constructing this_obj keep s called constructed =
      let (outcome, e, _) = ended in (outcome, e)
    where
      many : Bool
      many = ltb function.js_in_argc (length args)

      warned : Bool × State
      warned = engine.warn_too_many (engine.complete_async_calls s)

      before : State
      before = if many then warned.1 else engine.complete_async_calls s

      this : Option Value × State
      this = this_of engine constructing this_obj before

      no_this :
          (b : Bool) (o : Option Value)
          → (not b && not (is_some o)) ≡ false
          → (b ≡ true → o ≡ none → function.info.is_method ≡ false)
          → o ≡ none
          → function.info.is_method ≡ false
      no_this true o there h missing = h refl missing
      no_this false o there h missing = absurd (ground (arith, missing))

      ended : Ends (gjs_invoke_c_function engine function args constructing this_obj keep s) Done
      ended =
          Ends-if (not constructing && is_some this_obj) (λ wrong. absurd (ground (arith, called)))
            λ _.
              Ends-if (ltb max_args (length function.info.args)) (λ _. Ends-some _ tt)
                λ _.
                  Ends-if (ltb (length args) function.js_in_argc) (λ _. Ends-some _ tt)
                    λ _.
                      Ends-if (many && not warned.0) (λ _. Ends-some _ tt)
                        λ _.
                          Ends-if (not constructing && not (is_some this.0)) (λ _. Ends-some _ tt)
                            (λ there. with_this-Ends args keep this.0 this.1 (
                              no_this constructing this.0 there (λ e missing. constructed e (
                                sym (ap (λ b. (this_of engine b this_obj before).0) e) ∙ missing))))
