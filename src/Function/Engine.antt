-- ===== src/Function/Engine.antt =====
-- What gjs_invoke_c_function (gi/function.cpp) uses and does not define: the functions in the
-- tables of gi/arg-cache.cpp, libffi, the JavaScript engine, and `complete_async_calls`.
use cjs.Prelude.{ℕ, Bool, Option, List}
use cjs.Cache.Defs.{ArgumentCache}
use cjs.Function.Init.{ArgPos}

-- What an entry of `ffi_arg_pointers` points at.
pub data Pointer : Type 0 where
  in_value : ArgPos → Pointer
  error_location : Pointer

-- `State` has everything that the calls read and write: the arrays of C values, the rooted
-- objects, a pending exception, the world. `Value` is a JavaScript value. A Boolean result is what
-- the function returns, `false` being failure; `none` is failure too.
pub record Engine (State Value : Type 0) : Type 0 where
  pub undefined : Value
  pub complete_async_calls : State → State
  pub warn_too_many : State → Bool × State
  pub compute_this : State → Option Value × State
  pub set_instance_object : Value → State → State
  pub marshal_in : ArgPos → ArgumentCache → Value → State → Bool × State
  pub ffi_call : List Pointer → State → State
  pub has_local_error : State → Bool
  pub set_undefined : State → State
  pub extract_return : State → State
  pub marshal_out : ArgPos → ArgumentCache → State → Option Value × State
  pub append : Value → State → Bool × State
  pub release : (call_completed : Bool) → ArgPos → ArgumentCache → State → Bool × State
  pub save_return : State → State
  pub new_array : List Value → State → Option Value × State
  pub nargs : ℕ  -- of the function's libffi call interface
  pub is_object_or_interface : ArgumentCache → Bool  -- by the type in its contents
