-- ===== src/Function/Ready.antt =====
-- A function whose caches are in order for a call (gi/function.cpp).
use cjs.Prelude.{ℕ, suc, ◌+◌, ◌≡◌, refl, ap, Bool, true, false, List, [], ◌∷◌, arith, length, ◌++◌}
use cjs.Cache.Defs.{ArgumentCache}
use cjs.Cache.Effect.{gives}
use cjs.Cache.Writes.{sum_to}
use cjs.Cache.Tables.{has_in}
use cjs.Function.Init.{Function, ArgPos, indexed}
use cjs.Function.Engine.{Pointer}
use cjs.Function.Invoke.{bool_nat, has_table, has_out}
use cjs.Function.Loops.{All, length-indexed}
use cjs.Function.Call.{instance_pointers, arg_pointers, error_pointers, ffi_arg_pointers}

pub has_out-has_table : (c : ArgumentCache) → has_out c ≡ true → has_table c ≡ true
has_out-has_table c h = ground arith

pub has_in-has_table : (c : ArgumentCache) → has_in c.marshallers ≡ true → has_table c ≡ true
has_in-has_table c h = ground arith

pub All-has_table :
    (i : ℕ) (xs : List ArgumentCache) → All has_out (indexed i xs) → All has_table (indexed i xs)
All-has_table i [] h = tt
All-has_table i (x ∷ xs) h = (has_out-has_table x h.0, All-has_table (suc i) xs h.1)

-- A function whose caches have the tables that a call uses, whose js_out_argc counts what is
-- returned to JavaScript, and whose call interface has as many arguments as the C function.
pub record IsReady (nargs : ℕ) (function : Function) : Type 0 where
  pub args_out : All has_out (indexed 0 function.arguments)
  pub return_out : has_out function.return_value ≡ true
  pub method_in : function.info.is_method ≡ true → has_in function.instance_arg.marshallers ≡ true
  pub counted :
      function.js_out_argc
      ≡ gives function.return_value + sum_to gives (length function.arguments) function.arguments
  pub width :
      nargs
      ≡ bool_nat function.info.is_method
        + (length function.arguments + bool_nat function.info.can_throw_gerror)

length-++ : (xs ys : List Pointer) → length (xs ++ ys) ≡ length xs + length ys
length-++ [] ys = omega arith
length-++ (x ∷ xs) ys = omega (arith, length-++ xs ys)

length-arg_pointers : (xs : List (ArgPos × ArgumentCache)) → length (arg_pointers xs) ≡ length xs
length-arg_pointers [] = refl
length-arg_pointers ((_, _) ∷ xs) = ap suc (length-arg_pointers xs)

length-instance_pointers : (b : Bool) → length (instance_pointers b) ≡ bool_nat b
length-instance_pointers true = refl
length-instance_pointers false = refl

length-error_pointers : (b : Bool) → length (error_pointers b) ≡ bool_nat b
length-error_pointers true = refl
length-error_pointers false = refl

pub length-ffi_arg_pointers :
    (nargs : ℕ) (function : Function)
    → IsReady nargs function
    → length (ffi_arg_pointers function) ≡ nargs
unfolding ffi_arg_pointers
length-ffi_arg_pointers nargs function h =
    let instances = instance_pointers function.info.is_method in
    let args = arg_pointers (indexed 0 function.arguments) in
    let errors = error_pointers function.info.can_throw_gerror in
    omega (
      arith,
      h.width,
      length-++ instances (args ++ errors),
      length-++ args errors,
      length-instance_pointers function.info.is_method,
      length-arg_pointers (indexed 0 function.arguments),
      length-indexed 0 function.arguments,
      length-error_pointers function.info.can_throw_gerror,
    )
