-- ===== src/Function/Init.antt =====
-- init_cached_function_data and uninit_cached_function_data (gi/function.cpp). That the library
-- prepares the invoker is not part of the model; its failure leaves no caches.
use cjs.Prelude.{
  ℕ, zero, suc, ◌+◌, ◌%◌, Bool, true, false, none, some, List, [], ◌∷◌, if◌then◌else◌, ◌||◌, ltb,
  get_elem?, length, take, replicate,
}
use cjs.Gi.{TypeSystem, ArgInfo, CallableInfo, ArgDirection, input, output}
use cjs.Cache.Marshallers.{frees_interface}
use cjs.Cache.Defs.{ArgumentCache, new0, Result, ok, abort, ◌>>=◌}
use cjs.Cache.Build.{build_return, build_instance, build_arg}

-- `instance` is `arguments[-2]`, which only a method has, and `return_value` is `arguments[-1]`.
pub record Function : Type 0 where
  pub info : CallableInfo
  pub instance_arg : ArgumentCache
  pub return_value : ArgumentCache
  pub arguments : List ArgumentCache
  pub js_in_argc : ℕ
  pub js_out_argc : ℕ

abbrev pub bump : Bool → ℕ → ℕ
bump true n = (n + 1) % 256
bump false n = n

abbrev pub counts_in : ArgDirection → Bool
counts_in output = false
counts_in _ = true

abbrev pub counts_out : ArgDirection → Bool
counts_out input = false
counts_out _ = true

-- The caches of the arguments, and the two counters.
pub record Progress : Type 0 where
  pub arguments : List ArgumentCache
  pub js_in : ℕ
  pub js_out : ℕ

module _ (types : TypeSystem) where
  abbrev pub counted : ArgDirection → Progress → List ArgumentCache × Bool → Progress
  counted dir p (arguments, false) = record p { arguments = arguments }
  counted dir p (arguments, true) = record {
    arguments = arguments;
    js_in = bump (counts_in dir) p.js_in;
    js_out = bump (counts_out dir) p.js_out;
  }

  -- The body of the loop over the arguments.
  unfoldable pub init_arg : CallableInfo → ArgInfo → ℕ → Progress → Result Progress
  init_arg callable arg i p = elim (get_elem? p.arguments i) [
    | none ↦ abort
    | some self ↦
        if self.skip_in || self.skip_out
        then ok p
        else build_arg types callable arg i p.arguments >>= λ built.
            ok (counted arg.direction p built)
  ]

  unfoldable pub init_args : CallableInfo → List ArgInfo → ℕ → Progress → Result Progress
  unfolding init_arg
  init_args callable [] i p = ok p
  init_args callable (arg ∷ args) i p =
      init_arg callable arg i p >>= λ p'. init_args callable args (suc i) p'

  abbrev pub init_instance : CallableInfo → Bool → Result ArgumentCache
  init_instance callable true = build_instance types callable new0
  init_instance callable false = ok new0

  -- The number of arguments is read into a guint8.
  unfoldable pub init_cached_function_data : CallableInfo → Result Function
  unfolding init_args build_return build_instance new0
  init_cached_function_data callable = do
    let n_args = length callable.args % 256
    instance_arg ← init_instance callable callable.is_method
    returned ← build_return callable new0 (replicate n_args new0)
    done ←
        init_args callable (take n_args callable.args) 0
          (record { arguments = returned.1; js_in = 0; js_out = bump returned.2 0 })
    ok (record {
      info = callable;
      instance_arg = instance_arg;
      return_value = returned.0;
      arguments = done.arguments;
      js_in_argc = done.js_in;
      js_out_argc = done.js_out;
    })

-- An index into the caches.
pub data ArgPos : Type 0 where
  instance_at : ArgPos
  return_at : ArgPos
  arg_at : ℕ → ArgPos

abbrev pub indexed : ℕ → List ArgumentCache → List (ArgPos × ArgumentCache)
indexed i [] = []
indexed i (c ∷ cs) = (arg_at i, c) ∷ indexed (suc i) cs

-- The caches from the start of the allocation.
unfoldable pub all_caches : Function → List (ArgPos × ArgumentCache)
all_caches function =
    let rest = (return_at, function.return_value) ∷ indexed 0 function.arguments in
    if function.info.is_method then (instance_at, function.instance_arg) ∷ rest else rest

abbrev pub frees : ArgumentCache → Bool
frees self = elim self.marshallers [ none ↦ false | some m ↦ frees_interface m ]

-- The positions whose reference to the interface info is dropped; a cache with no table ends the
-- loop.
unfoldable pub free_loop : ℕ → List (ArgPos × ArgumentCache) → List ArgPos
unfolding frees_interface
free_loop zero caches = []
free_loop (suc n) [] = []
free_loop (suc n) ((pos, self) ∷ rest) = elim self.marshallers [
  | none ↦ []
  | some m ↦ if frees_interface m then pos ∷ free_loop n rest else free_loop n rest
]

abbrev pub lower : ℕ → ℕ → ℕ
lower a b = if ltb a b then a else b

unfoldable pub uninit_cached_function_data : Function → List ArgPos
unfolding free_loop all_caches
uninit_cached_function_data function =
    let gi_argc = lower (length function.info.args) (function.js_in_argc + function.js_out_argc) in
    free_loop gi_argc (all_caches function)
