-- ===== src/Function/Invoke.antt =====
-- gjs_invoke_c_function (gi/function.cpp), one definition for each of its loops. `none` is a failed
-- assertion or a call through a null pointer.
use cjs.Prelude.{
  ℕ, suc, Bool, true, false, Option, none, some, List, [], ◌∷◌, if◌then◌else◌, ◌&&◌, ◌||◌, not, ltb,
  get_elem?, ◌++◌,
}
use cjs.Cache.Defs.{ArgumentCache}
use cjs.Cache.Tables.{has_in}
use cjs.Cache.Marshallers.{marshal_out}
use cjs.Function.Init.{ArgPos, return_at}
use cjs.Function.Engine.{Engine}

-- What a call comes to: `true` with a value for `args.rval()`, which is left alone where the
-- return value is kept for the caller, `true` without one, or `false`, for the exception that the
-- GError becomes or for another one.
pub data Outcome (Value : Type 0) : Type 0 where
  returned : Value → Outcome Value
  unset : Outcome Value
  threw_gerror : Outcome Value
  threw : Outcome Value

pub record InEnd (State : Type 0) : Type 0 where
  pub failed : Bool
  pub processed_c_args : ℕ
  pub state : State

pub record OutEnd (State Value : Type 0) : Type 0 where
  pub failed : Bool
  pub js_arg_pos : ℕ
  pub return_values : List Value
  pub state : State

pub record ReleaseEnd (State : Type 0) : Type 0 where
  pub release_failed : Bool
  pub ffi_arg_pos : ℕ
  pub state : State

abbrev pub or_else {ℓ} : {A : Type ℓ} → A → Option A → A
or_else a none = a
or_else a (some b) = b

abbrev pub bool_nat : Bool → ℕ
bool_nat true = 1
bool_nat false = 0

-- Whether the table has an `out`.
abbrev pub has_out : ArgumentCache → Bool
has_out cache = elim cache.marshallers [
  | none ↦ false
  | some m ↦ elim (marshal_out m) [ none ↦ false | some _ ↦ true ]
]

abbrev pub has_table : ArgumentCache → Bool
has_table cache = elim cache.marshallers [ none ↦ false | some _ ↦ true ]

abbrev pub is_return_at : ArgPos → Bool
is_return_at return_at = true
is_return_at _ = false

module _ {State Value : Type 0} (engine : Engine State Value) where
  open engine use {
    undefined, complete_async_calls, warn_too_many, compute_this, set_instance_object, ffi_call,
    has_local_error, set_undefined, extract_return, append, release, save_return, new_array, nargs,
    is_object_or_interface,
  }

  -- The loop that converts the arguments, from the cache at the head.
  unfoldable pub in_loop :
      (args : List Value)
      → List (ArgPos × ArgumentCache)
      → (js_arg_pos processed : ℕ) → State
      → Option (InEnd State)
  in_loop args [] js_arg_pos processed s =
      some (record { failed = false; processed_c_args = processed; state = s })
  in_loop args ((pos, cache) ∷ rest) js_arg_pos processed s =
      if not (has_table cache)
      then none
      else if not (has_in cache.marshallers)
      then some (record { failed = true; processed_c_args = processed; state = s })
      else (let (done, s') =
            engine.marshal_in pos cache (or_else undefined (get_elem? args js_arg_pos)) s in
          if not done
          then some (record { failed = true; processed_c_args = processed; state = s' })
          else in_loop args rest (if cache.skip_in then js_arg_pos else suc js_arg_pos)
              (suc processed) s')

  -- The loop that makes the return values. With `keep`, the return value is kept for the caller as
  -- it is, and nothing is converted.
  unfoldable pub out_loop :
      (keep : Bool)
      → List (ArgPos × ArgumentCache)
      → (js_arg_pos : ℕ) → (return_values : List Value) → State
      → Option (OutEnd State Value)
  out_loop keep [] js_arg_pos values s =
      some (record { failed = false; js_arg_pos = js_arg_pos; return_values = values; state = s })
  out_loop true ((pos, cache) ∷ rest) js_arg_pos values s =
      out_loop true rest (if cache.skip_out then js_arg_pos else suc js_arg_pos) values s
  out_loop false ((pos, cache) ∷ rest) js_arg_pos values s =
      if not (has_out cache)
      then none
      else (let (made, s') = engine.marshal_out pos cache s in
          elim made [
            | none ↦ some (record {
              failed = true;
              js_arg_pos = js_arg_pos;
              return_values = values;
              state = s';
            })
            | some value ↦
                if cache.skip_out
                then out_loop false rest js_arg_pos values s'
                else (let (fits, s'') = append value s' in
                    if fits
                    then out_loop false rest (suc js_arg_pos) (values ++ (value ∷ [])) s''
                    else some (record {
                      failed = true;
                      js_arg_pos = js_arg_pos;
                      return_values = values;
                      state = s'';
                    }))
          ])

  -- The loop that releases the C values.
  unfoldable pub release_loop :
      (keep failed call_completed : Bool) (ffi_arg_max : ℕ)
      → List (ArgPos × ArgumentCache)
      → (ffi_arg_pos : ℕ) → (release_failed : Bool) → State
      → Option (ReleaseEnd State)
  release_loop keep failed completed ffi_arg_max [] ffi_arg_pos bad s =
      some (record { release_failed = bad; ffi_arg_pos = ffi_arg_pos; state = s })
  release_loop keep failed completed ffi_arg_max ((pos, cache) ∷ rest) ffi_arg_pos bad s =
      if not (ltb ffi_arg_pos ffi_arg_max)
      then some (record { release_failed = bad; ffi_arg_pos = ffi_arg_pos; state = s })
      else if failed && cache.skip_in
      then release_loop keep failed completed ffi_arg_max rest (suc ffi_arg_pos) bad s
      else if keep && is_return_at pos
      then release_loop keep failed completed ffi_arg_max rest (suc ffi_arg_pos) bad (save_return s)
      else if not (has_table cache)
      then none
      else (let (done, s') = release completed pos cache s in
          release_loop keep failed completed ffi_arg_max rest (suc ffi_arg_pos) (bad || not done)
            s')
