-- ===== src/Function/Frees.antt =====
-- Which caches uninit_cached_function_data (gi/function.cpp) frees.
use cjs.Prelude.{
  ℕ, zero, suc, ◌+◌, ◌<◌, ◌≤◌, true, false, Option, none, some, List, [], ◌∷◌, arith, length,
  if◌then◌else◌, Bool,
}
use cjs.Cache.Defs.{ArgumentCache}
use cjs.Cache.Marshallers.{Marshallers, frees_interface}
use cjs.Function.Init.{
  Function, ArgPos, instance_at, return_at, arg_at, indexed, all_caches, free_loop, lower,
  uninit_cached_function_data,
}

-- An argument that at least one other follows.
abbrev pub IsFollowed : ℕ → ArgPos → Type 0
IsFollowed n (arg_at i) = suc i < n
IsFollowed n _ = Unit

abbrev pub Each : (ArgPos → Type 0) → List ArgPos → Type 0
Each P [] = Unit
Each P (pos ∷ rest) = P pos × Each P rest

Each-if :
    (P : ArgPos → Type 0) (b : Bool) (pos : ArgPos) (rest : List ArgPos)
    → P pos
    → Each P rest
    → Each P (if b then pos ∷ rest else rest)
Each-if P true pos rest h k = (h, k)
Each-if P false pos rest h k = k

-- One cache of the loop, whatever its table is.
free_loop-cons :
    (P : ArgPos → Type 0) (m : ℕ) (pos : ArgPos) (self : ArgumentCache)
    (rest : List (ArgPos × ArgumentCache))
    → P pos
    → Each P (free_loop m rest)
    → Each P (free_loop (suc m) ((pos, self) ∷ rest))
unfolding free_loop
free_loop-cons P m pos self rest h k = by_table self.marshallers
  where
    by_table :
        (table : Option Marshallers)
        → Each P (elim table [
          | none ↦ []
          | some t ↦ if frees_interface t then pos ∷ free_loop m rest else free_loop m rest
        ])
    by_table none = tt
    by_table (some t) = Each-if P (frees_interface t) pos (free_loop m rest) h k

free_loop-indexed :
    (n m i : ℕ) (xs : List ArgumentCache)
    → i + m < n
    → Each (IsFollowed n) (free_loop m (indexed i xs))
unfolding free_loop
free_loop-indexed n zero i xs h = tt
free_loop-indexed n (suc m) i [] h = tt
free_loop-indexed n (suc m) i (x ∷ xs) h =
    free_loop-cons (IsFollowed n) m (arg_at i) x (indexed (suc i) xs) (omega arith)
      (free_loop-indexed n m (suc i) xs (omega arith))

free_loop-return :
    (n m : ℕ) (self : ArgumentCache) (xs : List ArgumentCache)
    → m ≤ n
    → Each (IsFollowed n) (free_loop m ((return_at, self) ∷ indexed 0 xs))
unfolding free_loop
free_loop-return n zero self xs h = tt
free_loop-return n (suc m) self xs h =
    free_loop-cons (IsFollowed n) m return_at self (indexed 0 xs) tt
      (free_loop-indexed n m 0 xs (omega arith))

free_loop-all_caches :
    (n m : ℕ) (function : Function)
    → m ≤ n
    → Each (IsFollowed n) (free_loop m (all_caches function))
unfolding all_caches free_loop
free_loop-all_caches n m function h = by_kind function.info.is_method m h
  where
    by_kind :
        (b : Bool) (m : ℕ)
        → m ≤ n
        → Each (IsFollowed n) (
            free_loop m (
              if b
              then (instance_at, function.instance_arg)
                ∷ (return_at, function.return_value)
                ∷ indexed 0 function.arguments
              else (return_at, function.return_value) ∷ indexed 0 function.arguments))
    by_kind false m h = free_loop-return n m function.return_value function.arguments h
    by_kind true zero h = tt
    by_kind true (suc m) h =
        free_loop-cons (IsFollowed n) m instance_at function.instance_arg
          ((return_at, function.return_value) ∷ indexed 0 function.arguments) tt
          (free_loop-return n m function.return_value function.arguments (omega arith))

lower-le : (a b : ℕ) → lower a b ≤ a
lower-le a b = ground arith

-- When a function is torn down, an argument whose interface info is dropped is followed by another
-- argument: the cache of the last argument is never freed, whatever its table is.
pub uninit_cached_function_data_lem :
    (function : Function)
    → Each (IsFollowed (length function.info.args)) (uninit_cached_function_data function)
unfolding uninit_cached_function_data
uninit_cached_function_data_lem function =
    free_loop-all_caches (length function.info.args)
      (lower (length function.info.args) (function.js_in_argc + function.js_out_argc)) function
      (lower-le (length function.info.args) (function.js_in_argc + function.js_out_argc))
