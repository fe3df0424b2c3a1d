-- ===== src/Cache/Kinds.antt =====
-- gjs_arg_cache_build_arg (gi/arg-cache.cpp) for each kind of argument: callbacks, arrays with a
-- length, and the rest.
use cjs.Prelude.{
  ℕ, ◌<◌, ◌≡◌, refl, sym, ◌∙◌, Bool, true, false, Option, none, some, List, if◌then◌else◌, ◌&&◌,
  ◌||◌, not, ltb, arith, get_elem?, length,
}
use cjs.Gi.{TypeSystem, ArgInfo, CallableInfo, ArgDirection, input, output, inout}
use cjs.Cache.Marshallers.{Marshallers, InMarshaller, OutMarshaller, marshal_in, marshal_out}
use cjs.Cache.Defs.{ArgumentCache, ok, set_skip_all, set_arg_pos, callback_pos, array_pos}
use cjs.Cache.Interface.{build_normal_in_arg, use_table}
use cjs.Cache.Tables.{has_in, only_in, build_normal_in_arg-IsInArg}
use cjs.Cache.Writes.{Writes-length, Writes-sum_to, sum_to, Writes, start, at_index, behind}
use cjs.Cache.Effect.{
  takes, gives, bit, IsSetUp, Effect, Effect-throw, Effect->>=, Effect-if, get_elem?-modify_self,
  placed-Effect, caller_allocates-Effect, invalid-Effect, finished-Effect, Behind, IsForward,
  skip_at-Writes, skip_at-found, length_at-Writes, length_at-found, set_skip_all-IsEven,
  get_elem?-behind,
}
use cjs.Cache.Build.{
  modify, is_input, is_output, is_array, is_interface, is_callback, setup, build_callback,
  build_c_array, build_by_kind, build_sized, build_plain, build_arg, length_at, array_table,
  skip_at, is_destroy_notify, with_table, is_some,
}

only_in-has_in : (m : Option Marshallers) → only_in m ≡ true → has_in m ≡ true
unfolding marshal_in
only_in-has_in none h = h
only_in-has_in (some m) h = by_in (marshal_in m) (marshal_out m) h
  where
    by_in :
        (o : Option InMarshaller) (q : Option OutMarshaller)
        → elim o [
          | none ↦ false
          | some _ ↦ elim q [ none ↦ true | some OutMarshaller.skipped ↦ true | some _ ↦ false ]
        ]
          ≡ true
        → elim o [ none ↦ false | some _ ↦ true ] ≡ true
    by_in none q e = e
    by_in (some _) q e = refl

is_input→input : (d : ArgDirection) → not (is_input d) ≡ false → d ≡ input
is_input→input d h = ground arith

ltb_of_lt : (i p : ℕ) → i < p → not (ltb p i) ≡ true
ltb_of_lt i p h = ground arith

array_table-has_in : (d : ArgDirection) → has_in (some (array_table d)) ≡ true
unfolding marshal_in
array_table-has_in input = refl
array_table-has_in inout = refl
array_table-has_in output = refl

length_Behind :
    (b : Bool) (i : ℕ) (o : Option ℕ) → (b ≡ true → Behind i o) → Behind i (if b then o else none)
length_Behind true i o h = h refl
length_Behind false i o h = tt

setup-IsSetUp :
    (arg : ArgInfo) (i : ℕ) (c self : ArgumentCache)
    → (c.skip_in || c.skip_out) ≡ false
    → setup arg i c ≡ ok self
    → IsSetUp arg.direction self
unfolding setup set_arg_pos
setup-IsSetUp arg i c self plain e = ground arith

module _ (dir : ArgDirection) (i : ℕ) (xs arguments : List ArgumentCache) (self : ArgumentCache)
    (w : Writes i xs arguments) (found : get_elem? arguments i ≡ some self)
    (set_up : IsSetUp dir self) where
  callback-Effect :
      (arg : ArgInfo)
      → arg.direction ≡ dir
      → (is_destroy_notify arg.type_info.interface_info ≡ false → Behind i arg.closure)
      → (is_destroy_notify arg.type_info.interface_info ≡ false → Behind i arg.destroy)
      → Effect dir i xs (build_callback arg i arguments)
  unfolding build_callback marshal_in
  callback-Effect arg same closure destroy =
      Effect-if (not (is_input arg.direction)) (λ _. Effect-throw dir i xs _)
        λ is_in.
          Effect-if (is_destroy_notify arg.type_info.interface_info)
            (λ _.
              invalid-Effect dir i xs arguments self w found set_up
                (sym same ∙ is_input→input arg.direction is_in))
            λ plain.
              Effect-if (is_some arg.destroy && not (is_some arg.closure))
                (λ _. Effect-throw dir i xs _)
                λ _. Effect->>= (callback_pos arg.destroy) λ destroy_pos _.
                  Effect->>= (callback_pos arg.closure) λ closure_pos _.
                    finished-Effect dir i xs arguments self w found set_up
                      (skip_at arg.closure (skip_at arg.destroy tabled))
                      (with_table Marshallers.callback_in self) _
                      (skip_at-Writes arg.closure (closure plain) (
                        skip_at-Writes arg.destroy (destroy plain)
                          (at_index (with_table Marshallers.callback_in) w)))
                      (skip_at-found (skip_at arg.destroy tabled) i arg.closure (closure plain)
                        ∙ (skip_at-found tabled i arg.destroy (destroy plain)
                            ∙ get_elem?-modify_self arguments i (with_table Marshallers.callback_in)
                                found))
                      refl refl refl
    where
      tabled : List ArgumentCache
      tabled = modify arguments i (with_table Marshallers.callback_in)

  c_array-Effect :
      (callable : CallableInfo) (arg : ArgInfo) (p : ℕ)
      → arg.direction ≡ dir
      → i < p
      → Effect dir i xs (build_c_array callable arg i p arguments)
  unfolding build_c_array marshal_in
  c_array-Effect callable arg p same h = Effect->>= (array_pos p) λ pos _. rw (ltb_of_lt i p h) (
      finished-Effect dir i xs arguments self w found set_up
        (length_at arg.direction p (modify arguments p set_skip_all)) self _
        (length_at-Writes arg.direction p h (behind p set_skip_all h set_skip_all-IsEven w))
        (length_at-found (modify arguments p set_skip_all) i arg.direction p h
          ∙ (get_elem?-behind arguments i p set_skip_all h ∙ found))
        (array_table-has_in arg.direction) refl refl)

  plain-Effect :
      (types : TypeSystem) (d : ArgDirection) (arg : ArgInfo)
      → Effect dir i xs (build_plain types d arg i self arguments)
  unfolding build_plain marshal_in
  plain-Effect types input arg =
      placed-Effect dir i xs arguments self w found set_up
        (build_normal_in_arg types self arg.type_info arg.type_info.tag)
        λ c e.
          let h = build_normal_in_arg-IsInArg types self c arg.type_info arg.type_info.tag e in
          (only_in-has_in c.marshallers h.table, h.same_in, h.same_out)
  plain-Effect types inout arg =
      placed-Effect dir i xs arguments self w found set_up
        (use_table self Marshallers.fallback_inout) λ c e. ground arith
  plain-Effect types output arg =
      placed-Effect dir i xs arguments self w found set_up (use_table self Marshallers.fallback_out)
        λ c e. ground arith

  sized-Effect :
      (types : TypeSystem) (callable : CallableInfo) (arg : ArgInfo) (o : Option ℕ)
      → arg.direction ≡ dir
      → Behind i o
      → Effect dir i xs (build_sized types o callable arg i self arguments)
  unfolding build_sized
  sized-Effect types callable arg (some p) same h = c_array-Effect callable arg p same h
  sized-Effect types callable arg none same h = plain-Effect types arg.direction arg

  kind-Effect :
      (types : TypeSystem) (callable : CallableInfo) (arg : ArgInfo)
      → arg.direction ≡ dir
      → IsForward i arg
      → Effect dir i xs (build_by_kind types callable arg i self arguments)
  unfolding build_by_kind
  kind-Effect types callable arg same forward =
      Effect-if (is_output arg.direction && arg.is_caller_allocates)
        (λ _.
          Effect-if (not (is_interface arg.type_info.tag)) (λ _. Effect-throw dir i xs _)
            λ _.
              caller_allocates-Effect dir i xs arguments self w found set_up arg
                arg.type_info.interface_info.info_type)
        λ _.
          Effect-if
            (is_interface arg.type_info.tag && is_callback arg.type_info.interface_info.info_type)
            (λ is_cb.
              callback-Effect arg same (forward.closure_behind is_cb)
                (forward.destroy_behind is_cb))
            λ _. sized-Effect types callable arg _ same (
              length_Behind (is_array arg.type_info.tag && arg.type_info.is_c_array) i
                arg.type_info.array_length forward.length_behind)

-- Building the cache of an argument whose cache is not skipped, where its companions stand behind
-- it: nothing before it is touched, and its own cache takes and gives as its counters say.
pub build_arg-Effect :
    (types : TypeSystem) (callable : CallableInfo) (arg : ArgInfo) (i : ℕ) (xs : List ArgumentCache)
    (c : ArgumentCache)
    → get_elem? xs i ≡ some c
    → (c.skip_in || c.skip_out) ≡ false
    → IsForward i arg
    → Effect arg.direction i xs (build_arg types callable arg i xs)
unfolding build_arg
build_arg-Effect types callable arg i xs c found plain forward =
    rw (found, build_arg)
      (Effect->>= (setup arg i c) λ self e.
        kind-Effect arg.direction i xs (modify xs i (λ _. self)) self (at_index (λ _. self) start)
          (get_elem?-modify_self xs i (λ _. self) found) (setup-IsSetUp arg i c self plain e) types
          callable arg refl forward)

-- Building the cache of an argument whose cache is not skipped yet, where the arguments that go with
-- it, its length, user data and destroy notification, stand behind it: the number of caches stays,
-- those before the argument take and give as many values as before, and the argument's own cache
-- takes a JavaScript argument, and gives a value to JavaScript, exactly where its counter is
-- incremented for its direction.
pub build_arg_lem :
    (types : TypeSystem) (callable : CallableInfo) (arg : ArgInfo) (i : ℕ)
    (xs ys : List ArgumentCache) (c : ArgumentCache) (inc : Bool)
    → get_elem? xs i ≡ some c
    → (c.skip_in || c.skip_out) ≡ false
    → IsForward i arg
    → build_arg types callable arg i xs ≡ ok (ys, inc)
    → (length ys ≡ length xs)
      × (sum_to takes i ys ≡ sum_to takes i xs)
      × (sum_to gives i ys ≡ sum_to gives i xs)
      × ((c' : ArgumentCache) × (get_elem? ys i ≡ some c')
          × (takes c' ≡ bit (inc && not (is_output arg.direction)))
          × (gives c' ≡ bit (inc && not (is_input arg.direction))))
build_arg_lem types callable arg i xs ys c inc found plain forward e =
    let (w, own) =
      (build_arg-Effect types callable arg i xs c found plain forward).effect ys inc e in
    (Writes-length w, Writes-sum_to takes w, Writes-sum_to gives w, own)
