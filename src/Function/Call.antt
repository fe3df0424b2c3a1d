-- ===== src/Function/Call.antt =====
-- gjs_invoke_c_function (gi/function.cpp), composed of its loops. Every part answers `none` for a
-- failed assertion or a call through a null pointer, else a state and either what the next part
-- needs or the outcome of an early return.
use cjs.Prelude.Options.{◌>>=◌}
use cjs.Prelude.{
  ℕ, ◌+◌, Bool, true, false, Option, none, some, List, [], ◌∷◌, if◌then◌else◌, ◌&&◌, ◌||◌, ◌==◌,
  not, ltb, length, ◌++◌,
}
use cjs.Cache.Defs.{ArgumentCache, max_args}
use cjs.Cache.Build.{is_some}
use cjs.Cache.Tables.{has_in}
use cjs.Function.Init.{Function, ArgPos, instance_at, return_at, indexed, all_caches}
use cjs.Function.Engine.{Engine, Pointer, in_value, error_location}
use cjs.Function.Invoke.{
  Outcome, returned, unset, threw_gerror, threw, bool_nat, in_loop, out_loop, release_loop,
}

-- How far the call came: whether something failed, whether the function set its GError, how many C
-- arguments there are to release, and the values to return.
pub record Progress (State Value : Type 0) : Type 0 where
  pub failed : Bool
  pub did_throw_gerror : Bool
  pub processed_c_args : ℕ
  pub return_values : List Value
  pub state : State

abbrev pub instance_pointers : Bool → List Pointer
instance_pointers true = in_value instance_at ∷ []
instance_pointers false = []

abbrev pub arg_pointers : List (ArgPos × ArgumentCache) → List Pointer
arg_pointers [] = []
arg_pointers ((pos, _) ∷ rest) = in_value pos ∷ arg_pointers rest

abbrev pub error_pointers : Bool → List Pointer
error_pointers true = error_location ∷ []
error_pointers false = []

unfoldable pub ffi_arg_pointers : Function → List Pointer
ffi_arg_pointers function =
    instance_pointers function.info.is_method
    ++ (arg_pointers (indexed 0 function.arguments)
        ++ error_pointers function.info.can_throw_gerror)

module _ {State Value : Type 0} (engine : Engine State Value) where
  open engine use {
    undefined, complete_async_calls, warn_too_many, compute_this, set_instance_object, ffi_call,
    has_local_error, set_undefined, extract_return, new_array, nargs, is_object_or_interface,
  }

  -- The `this` object, where there is one.
  abbrev pub this_of : (constructing : Bool) → Option Value → State → Option Value × State
  this_of true this_obj s = (this_obj, s)
  this_of false this_obj s = compute_this s

  -- The instance parameter of a method.
  unfoldable pub instance_in : Function → Value → State → Option (Bool × State)
  instance_in function this s =
      if not (has_in function.instance_arg.marshallers)
      then none
      else (let (done, s') = engine.marshal_in instance_at function.instance_arg this s in
          some (
            done,
            if done && is_object_or_interface function.instance_arg
                then set_instance_object this s'
                else s',
          ))

  -- From the call of the C function to the label `release`.
  unfoldable pub invoke :
      Function → (keep : Bool) → (processed : ℕ) → State → Option (Progress State Value)
  unfolding out_loop ffi_arg_pointers
  invoke function keep processed s =
      let pointers = ffi_arg_pointers function in
      if not (length pointers == nargs)
      then none
      else (let s1 = ffi_call pointers s in
          let did_throw = function.info.can_throw_gerror && has_local_error s1 in
          let s2 = if keep then s1 else set_undefined s1 in
          let s3 = if function.return_value.skip_out then s2 else extract_return s2 in
          out_loop engine keep ((return_at, function.return_value) ∷ indexed 0 function.arguments) 0
            [] s3
          >>= λ end.
              if end.failed || (did_throw || end.js_arg_pos == function.js_out_argc)
              then some (record {
                failed = end.failed;
                did_throw_gerror = did_throw;
                processed_c_args = processed;
                return_values = end.return_values;
                state = end.state;
              })
              else none)

  -- The value for `args.rval()`.
  unfoldable pub set_rval : Function → List Value → State → Option (Outcome Value × State)
  set_rval function values s =
      if function.js_out_argc == 1
      then elim values [ [] ↦ none | value ∷ _ ↦ some (returned value, s) ]
      else (let (array, s') = new_array values s in
          elim array [ none ↦ some (threw, s') | some value ↦ some (returned value, s') ])

  -- What is returned once all is released.
  unfoldable pub conclude :
      Function
      → (keep failed did_throw : Bool) → List Value
      → State
      → Option (Outcome Value × State)
  unfolding set_rval
  conclude function keep true did_throw values s = some (threw, s)
  conclude function keep false true values s = some (threw_gerror, s)
  conclude function true false false values s = some (unset, s)
  conclude function false false false values s =
      if ltb 0 function.js_out_argc
      then set_rval function values s
      else some (returned undefined, s)

  -- From the label `release` to the end.
  unfoldable pub finish :
      Function → (keep : Bool) → Progress State Value → Option (Outcome Value × State)
  unfolding release_loop all_caches conclude
  finish function keep p =
      let is_method = bool_nat function.info.is_method in
      let ffi_arg_max = p.processed_c_args + (is_method + 1) in
      release_loop engine keep p.failed (not p.failed && not p.did_throw_gerror) ffi_arg_max
        (all_caches function) is_method false p.state
      >>= λ end.
          if end.ffi_arg_pos == ffi_arg_max
          then conclude function keep (p.failed || end.release_failed) p.did_throw_gerror
              p.return_values end.state
          else none

  -- From the loop over the arguments on.
  unfoldable pub convert_and_invoke :
      Function
      → List Value
      → (keep : Bool) → (processed : ℕ) → State
      → Option (Outcome Value × State)
  unfolding in_loop invoke finish
  convert_and_invoke function args keep processed s = do
    end ← in_loop engine args (indexed 0 function.arguments) 0 processed s
    progress ←
        if end.failed
        then some (record {
          failed = true;
          did_throw_gerror = false;
          processed_c_args = end.processed_c_args;
          return_values = [];
          state = end.state;
        })
        else invoke function keep end.processed_c_args end.state
    finish function keep progress

  -- From the `this` object on.
  unfoldable pub with_this :
      Function → List Value → (keep : Bool) → Option Value → State → Option (Outcome Value × State)
  unfolding instance_in convert_and_invoke
  with_this function args keep this s =
      if not function.info.is_method then convert_and_invoke function args keep 0 s else elim this [
        | none ↦ none
        | some value ↦ do
          (done, s') ← instance_in function value s
          if done then convert_and_invoke function args keep 1 s' else some (threw, s')
      ]

  -- `this_obj` is for a constructor alone, which finds its instance there; without it, and always
  -- for a call, `this` is computed.
  unfoldable pub gjs_invoke_c_function :
      Function
      → (args : List Value) → (constructing : Bool) → (this_obj : Option Value) → (keep : Bool)
      → State
      → Option (Outcome Value × State)
  unfolding with_this
  gjs_invoke_c_function function args constructing this_obj keep s0 =
      if not constructing && is_some this_obj
      then none
      else (let s1 = complete_async_calls s0 in
          if ltb max_args (length function.info.args)
          then some (threw, s1)
          else if ltb (length args) function.js_in_argc
          then some (threw, s1)
          else (let (warned, s2) = warn_too_many s1 in
              let many = ltb function.js_in_argc (length args) in
              if many && not warned
              then some (threw, s2)
              else (let (this, s3) = this_of constructing this_obj (if many then s2 else s1) in
                  if not constructing && not (is_some this)
                  then some (threw, s3)
                  else with_this function args keep this s3)))
