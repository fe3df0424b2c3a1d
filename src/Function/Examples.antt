-- ===== src/Function/Examples.antt =====
-- Runs of gi/function.cpp for a concrete function.
use cjs.Prelude.{
  ℕ, suc, ◌+◌, ◌≡◌, ◌≤◌, refl, true, false, Option, none, some, List, [], ◌∷◌, ◌&&◌, not, arith,
  length, take,
}
use cjs.Gi.Samples.{no_types, sum_info}
use cjs.Cache.Marshallers.{marshal_in, marshal_out}
use cjs.Cache.Defs.{
  ArgumentCache, new0, Result, ok, set_arg_pos, set_skip_all, array_pos, set_return_value,
}
use cjs.Cache.Build.{setup, build_c_array, build_sized, build_by_kind, build_arg, build_return}
use cjs.Cache.Writes.{sum_to}
use cjs.Cache.Effect.{takes, gives}
use cjs.Function.Init.{
  uninit_cached_function_data, Function, ArgPos, indexed, all_caches, init_arg, init_args,
  init_cached_function_data,
}
use cjs.Function.Counts.{AllForward}
use cjs.Function.Totals.{init_cached_function_data_lem}
use cjs.Function.Engine.{Engine}
use cjs.Function.Invoke.{Outcome, InEnd, bool_nat, in_loop, release_loop}
use cjs.Function.Call.{finish, conclude, set_rval, gjs_invoke_c_function}
use cjs.Function.Ready.{IsReady}
use cjs.Function.Completes.{gjs_invoke_c_function-Ends}
use cjs.Function.Order.{Call, recording, wanted, converted, delivered, in_loop_order}
use cjs.Function.Frees.{IsFollowed, Each, uninit_cached_function_data_lem}
use cjs.Function.Releases.{released, finish-released}

abbrev function_of : Result Function → Function
function_of (ok f) = f
function_of _ = record {
  info = sum_info;
  instance_arg = new0;
  return_value = new0;
  arguments = [];
  js_in_argc = 0;
  js_out_argc = 0;
}

unfoldable sum : Function
unfolding init_cached_function_data init_args init_arg build_return build_arg setup build_by_kind
    build_sized build_c_array array_pos set_skip_all set_return_value set_arg_pos new0
sum = function_of (init_cached_function_data no_types sum_info)

sum-built : init_cached_function_data no_types sum_info ≡ ok sum
unfolding sum init_cached_function_data init_args init_arg build_return build_arg setup
    build_by_kind build_sized build_c_array array_pos set_skip_all set_return_value set_arg_pos new0
sum-built = refl

sum-AllForward : AllForward 0 sum_info.args
sum-AllForward = (
  record {
    closure_behind = λ e f. tt;
    destroy_behind = λ e f. tt;
    length_behind = λ e. omega arith;
  },
  (record { closure_behind = λ e f. tt; destroy_behind = λ e f. tt; length_behind = λ e. tt }, tt),
)

init_cached_function_data_lem_example :
    (length sum.arguments ≡ length sum_info.args)
    × (sum.js_in_argc ≡ sum_to takes (length sum_info.args) sum.arguments)
    × (sum.js_out_argc ≡ gives sum.return_value + sum_to gives (length sum_info.args) sum.arguments)
init_cached_function_data_lem_example =
    init_cached_function_data_lem no_types sum_info sum sum-built (omega arith) sum-AllForward

-- Everything succeeds; the state counts the calls.
abbrev willing : Engine ℕ ℕ
willing = record {
  undefined = 0;
  complete_async_calls = λ s. s;
  warn_too_many = λ s. (true, s);
  compute_this = λ s. (some 1, s);
  set_instance_object = λ v s. s;
  marshal_in = λ pos cache v s. (true, suc s);
  ffi_call = λ pointers s. suc s;
  has_local_error = λ s. false;
  set_undefined = λ s. s;
  extract_return = λ s. s;
  marshal_out = λ pos cache s. (some s, suc s);
  append = λ v s. (true, s);
  release = λ completed pos cache s. (true, suc s);
  save_return = λ s. s;
  new_array = λ values s. (some (length values), s);
  nargs = 3;
  is_object_or_interface = λ cache. false;
}

sum-IsReady : IsReady 3 sum
unfolding sum init_cached_function_data init_args init_arg build_return build_arg setup
    build_by_kind build_sized build_c_array array_pos set_skip_all set_return_value set_arg_pos new0
    marshal_out marshal_in
sum-IsReady = record {
  args_out = (refl, (refl, tt));
  return_out = refl;
  method_in = λ e. absurd (ground arith);
  counted = refl;
  width = refl;
}

gjs_invoke_c_function-Ends_example :
    (outcome : Outcome ℕ × ℕ) × (gjs_invoke_c_function willing sum (8 ∷ []) false none false 0
      ≡ some outcome)
gjs_invoke_c_function-Ends_example =
    gjs_invoke_c_function-Ends willing sum sum-IsReady (8 ∷ []) false none false 0 (λ e. refl)
      (λ e. absurd (ground arith))

unfoldable sum_caches : List (ArgPos × ArgumentCache)
sum_caches = indexed 0 sum.arguments

abbrev end_of : Option (InEnd (ℕ × List (Call ℕ))) → InEnd (ℕ × List (Call ℕ))
end_of (some end) = end
end_of none = record { failed = true; processed_c_args = 0; state = (0, []) }

unfoldable sum_end : InEnd (ℕ × List (Call ℕ))
unfolding in_loop sum_caches sum init_cached_function_data init_args init_arg build_return build_arg
    setup build_by_kind build_sized build_c_array array_pos set_skip_all set_return_value
    set_arg_pos new0 marshal_out marshal_in
sum_end = end_of (in_loop (recording willing) (8 ∷ []) sum_caches 0 0 (0, []))

sum_end-runs : in_loop (recording willing) (8 ∷ []) sum_caches 0 0 (0, []) ≡ some sum_end
unfolding sum_end in_loop sum_caches sum init_cached_function_data init_args init_arg build_return
    build_arg setup build_by_kind build_sized build_c_array array_pos set_skip_all set_return_value
    set_arg_pos new0 marshal_out marshal_in
sum_end-runs = refl

sum_end-fine : (sum_end.failed ≡ false) × (wanted sum_caches ≤ 1)
unfolding sum_end in_loop sum_caches sum init_cached_function_data init_args init_arg build_return
    build_arg setup build_by_kind build_sized build_c_array array_pos set_skip_all set_return_value
    set_arg_pos new0 marshal_out marshal_in
sum_end-fine = (refl, omega arith)

in_loop_order_example :
    (converted sum_end.state.1 ≡ sum_caches)
    × (delivered sum_end.state.1 ≡ take (wanted sum_caches) (8 ∷ []))
in_loop_order_example =
    in_loop_order willing (8 ∷ []) sum_caches 0 0 sum_end sum_end-runs sum_end-fine.0 sum_end-fine.1

-- The first argument converted, and the second did not.
abbrev result_of : Option (Outcome ℕ × (ℕ × List (Call ℕ))) → Outcome ℕ × (ℕ × List (Call ℕ))
result_of (some r) = r
result_of none = (Outcome.threw, (0, []))

unfoldable after_failure : Outcome ℕ × (ℕ × List (Call ℕ))
unfolding finish release_loop all_caches conclude set_rval sum init_cached_function_data init_args
    init_arg build_return build_arg setup build_by_kind build_sized build_c_array array_pos
    set_skip_all set_return_value set_arg_pos new0
after_failure = result_of (
    finish (recording willing) sum false (record {
      failed = true;
      did_throw_gerror = false;
      processed_c_args = bool_nat sum.info.is_method + 1;
      return_values = [];
      state = (0, []);
    }))

after_failure-runs :
    finish (recording willing) sum false (record {
      failed = true;
      did_throw_gerror = false;
      processed_c_args = bool_nat sum.info.is_method + 1;
      return_values = [];
      state = (0, []);
    })
    ≡ some after_failure
unfolding after_failure finish release_loop all_caches conclude set_rval sum
    init_cached_function_data init_args init_arg build_return build_arg setup build_by_kind
    build_sized build_c_array array_pos set_skip_all set_return_value set_arg_pos new0
after_failure-runs = refl

finish-released_example :
    after_failure.1.1
    ≡ released false true
        (not true && not false)
        (take (bool_nat sum.info.is_method + 2) (all_caches sum))
finish-released_example =
    finish-released willing sum false true false 1 [] 0 after_failure after_failure-runs

uninit_cached_function_data_lem_example :
    Each (IsFollowed (length sum.info.args)) (uninit_cached_function_data sum)
uninit_cached_function_data_lem_example = uninit_cached_function_data_lem sum
