-- ===== src/Cache/Build.antt =====
-- gjs_arg_cache_build_return, gjs_arg_cache_build_instance and gjs_arg_cache_build_arg
-- (gi/arg-cache.cpp). The caches of the arguments are a list, written in place; a write past its
-- end changes nothing. The Boolean of a result says whether the counter is to be incremented.
use text.Mathlib.Text.{◌==◌ as str_eq}
use cjs.Prelude.{
  ℕ, zero, suc, Bool, true, false, Option, none, some, List, [], ◌∷◌, if◌then◌else◌, ◌&&◌, ◌||◌,
  not, ltb, get_elem?,
}
use cjs.Gi.{
  TypeTag, InterfaceInfo, InfoType, TypeSystem, ArgInfo, CallableInfo, ArgDirection, input, output,
  inout,
}
use cjs.Cache.Marshallers.{Marshallers}
use cjs.Cache.Defs.{
  Contents, ArgumentCache, Message, Result, ok, throw, abort, ◌>>=◌, set_instance_parameter,
  set_return_value, set_arg_pos, callback_pos, array_pos, set_skip_all,
}
use cjs.Cache.Interface.{build_interface_in_arg, build_normal_in_arg, use_table}

-- A write through a pointer into the array.
abbrev pub modify {ℓ} : {A : Type ℓ} → List A → ℕ → (A → A) → List A
modify [] i f = []
modify (x ∷ xs) zero f = f x ∷ xs
modify (x ∷ xs) (suc i) f = x ∷ modify xs i f

abbrev pub tag_of : List ArgInfo → ℕ → TypeTag
tag_of args i = elim (get_elem? args i) [ none ↦ TypeTag.void | some a ↦ a.type_info.tag ]

abbrev pub is_void : TypeTag → Bool
is_void TypeTag.void = true
is_void _ = false

abbrev pub is_array : TypeTag → Bool
is_array TypeTag.array = true
is_array _ = false

abbrev pub is_interface : TypeTag → Bool
is_interface TypeTag.interface = true
is_interface _ = false

abbrev pub is_input : ArgDirection → Bool
is_input input = true
is_input _ = false

abbrev pub is_output : ArgDirection → Bool
is_output output = true
is_output _ = false

abbrev pub is_callback : InfoType → Bool
is_callback InfoType.callback = true
is_callback _ = false

-- A length that is converted on the way out only for its array.
unfoldable pub length_out : ℕ → ArgumentCache → ArgumentCache
length_out pos self = record self { arg_pos = pos; marshallers = some Marshallers.array_length_out }

unfoldable pub build_return :
    CallableInfo
    → ArgumentCache
    → List ArgumentCache
    → Result (ArgumentCache × List ArgumentCache × Bool)
unfolding set_skip_all set_return_value length_out array_pos
build_return callable self0 arguments =
    let self1 = record self0 { type_tag = callable.return_type.tag } in
    let self2 = record (set_return_value self1) { transfer = callable.caller_owns } in
    if is_void callable.return_type.tag
    then ok (set_skip_all self1, arguments, false)
    else elim (if is_array callable.return_type.tag
        then callable.return_type.array_length
        else none) [
          | some length_pos ↦ array_pos length_pos >>= λ pos. ok (
            record self2 {
              marshallers = some Marshallers.return_array;
              contents = Contents.array pos (tag_of callable.args length_pos);
            },
            modify (modify arguments length_pos set_skip_all) length_pos (length_out pos),
            true,
          )
          | none ↦ ok (
            record self2 { skip_in = true; marshallers = some Marshallers.return_value },
            arguments,
            true,
          )
        ]

module _ (types : TypeSystem) where
  open types use {param_type, is_a}

  abbrev pub is_gtype_struct_info : InterfaceInfo → InfoType → Bool
  is_gtype_struct_info info InfoType.structure = info.is_gtype_struct
  is_gtype_struct_info info _ = false

  abbrev pub is_param_info : InterfaceInfo → InfoType → Bool
  is_param_info info InfoType.object = is_a info.gtype param_type
  is_param_info info _ = false

  unfoldable pub build_instance : CallableInfo → ArgumentCache → Result ArgumentCache
  unfolding set_instance_parameter build_interface_in_arg
  build_instance callable self0 =
      let info = callable.container in
      let self = record (set_instance_parameter self0) { transfer = callable.instance_transfer } in
      if is_gtype_struct_info info info.info_type
      then use_table self Marshallers.gtype_struct_instance_in
      else if is_param_info info info.info_type
      then use_table self Marshallers.param_instance_in
      else build_interface_in_arg types self info true

-- The fields that are set for every argument.
unfoldable pub setup : ArgInfo → ℕ → ArgumentCache → Result ArgumentCache
unfolding set_arg_pos
setup arg gi_index self0 = do
  self ← set_arg_pos gi_index self0
  ok (record self {
    arg_name = arg.name;
    type_tag = arg.type_info.tag;
    transfer = arg.transfer;
    nullable = arg.may_be_null;
    skip_out = is_input arg.direction || self.skip_out;
    skip_in = is_output arg.direction || self.skip_in;
  })

abbrev pub caller_allocates_table : ArgumentCache → ℕ → ArgumentCache
caller_allocates_table self size = record self {
  marshallers = some Marshallers.caller_allocates_out;
  contents = Contents.caller_allocates_size size;
}

unfoldable pub caller_allocates : ArgInfo → InfoType → ArgumentCache → Result ArgumentCache
caller_allocates arg InfoType.structure self =
    ok (caller_allocates_table self arg.type_info.interface_info.size)
caller_allocates arg InfoType.union self =
    ok (caller_allocates_table self arg.type_info.interface_info.size)
caller_allocates arg kind self = throw (Message.unsupported_interface kind self.arg_name)

abbrev pub skip_at : Option ℕ → List ArgumentCache → List ArgumentCache
skip_at none arguments = arguments
skip_at (some pos) arguments = modify arguments pos set_skip_all

abbrev pub is_some {ℓ} : {A : Type ℓ} → Option A → Bool
is_some none = false
is_some (some _) = true

abbrev pub is_destroy_notify : InterfaceInfo → Bool
is_destroy_notify info = str_eq info.name "DestroyNotify" && str_eq info.namespace "GLib"

abbrev pub with_table : Marshallers → ArgumentCache → ArgumentCache
with_table m self = record self { marshallers = some m }

-- An argument that is a callback. The cache of the argument is set up already.
unfoldable pub build_callback :
    ArgInfo → ℕ → List ArgumentCache → Result (List ArgumentCache × Bool)
unfolding set_skip_all callback_pos
build_callback arg gi_index arguments =
    if not (is_input arg.direction)
    then throw (Message.callback_out arg.name)
    else if is_destroy_notify arg.type_info.interface_info
    then ok (modify arguments gi_index (with_table Marshallers.invalid_in), false)
    else if is_some arg.destroy && not (is_some arg.closure)
    then throw Message.destroy_without_user_data
    else do
      destroy_pos ← callback_pos arg.destroy
      closure_pos ← callback_pos arg.closure
      let tabled = modify arguments gi_index (with_table Marshallers.callback_in)
      let skipped = skip_at arg.closure (skip_at arg.destroy tabled)
      ok (
        modify skipped gi_index (λ self. record self {
          contents = Contents.callback closure_pos destroy_pos arg.scope;
        }),
        true,
      )

abbrev pub array_table : ArgDirection → Marshallers
array_table input = Marshallers.c_array_in
array_table inout = Marshallers.c_array_inout
array_table output = Marshallers.c_array_out

abbrev pub length_at : ArgDirection → ℕ → List ArgumentCache → List ArgumentCache
length_at output pos arguments = modify arguments pos (length_out pos)
length_at _ pos arguments = arguments

-- An argument that is a C array with a length argument.
unfoldable pub build_c_array :
    CallableInfo
    → ArgInfo
    → ℕ
    → (length_pos : ℕ) → List ArgumentCache
    → Result (List ArgumentCache × Bool)
unfolding set_skip_all length_out array_pos
build_c_array callable arg gi_index length_pos arguments = do
  pos ← array_pos length_pos
  let skipped = modify arguments length_pos set_skip_all
  let lengths = length_at arg.direction length_pos skipped
  ok (
    modify lengths gi_index (λ self. record self {
      marshallers = some (array_table arg.direction);
      contents = Contents.array pos (tag_of callable.args length_pos);
    }),
    not (ltb length_pos gi_index),
  )

abbrev pub placed :
    ℕ → List ArgumentCache → Result ArgumentCache → Result (List ArgumentCache × Bool)
placed gi_index arguments built = do self ← built; ok (modify arguments gi_index (λ _. self), true)

module _ (types : TypeSystem) where
  -- An argument that needs no other, by its direction.
  unfoldable pub build_plain :
      ArgDirection
      → ArgInfo
      → ℕ
      → ArgumentCache
      → List ArgumentCache
      → Result (List ArgumentCache × Bool)
  unfolding build_normal_in_arg
  build_plain input arg gi_index self arguments =
      placed gi_index arguments (build_normal_in_arg types self arg.type_info arg.type_info.tag)
  build_plain inout arg gi_index self arguments =
      placed gi_index arguments (use_table self Marshallers.fallback_inout)
  build_plain output arg gi_index self arguments =
      placed gi_index arguments (use_table self Marshallers.fallback_out)

  -- A C array with a length argument, or any other argument.
  unfoldable pub build_sized :
      Option ℕ
      → CallableInfo
      → ArgInfo
      → ℕ
      → ArgumentCache
      → List ArgumentCache
      → Result (List ArgumentCache × Bool)
  unfolding build_c_array build_plain
  build_sized (some pos) callable arg gi_index self arguments =
      build_c_array callable arg gi_index pos arguments
  build_sized none callable arg gi_index self arguments =
      build_plain arg.direction arg gi_index self arguments

  -- The tests in the order of the source, on the cache that is set up.
  unfoldable pub build_by_kind :
      CallableInfo
      → ArgInfo
      → ℕ
      → ArgumentCache
      → List ArgumentCache
      → Result (List ArgumentCache × Bool)
  unfolding caller_allocates build_callback build_sized
  build_by_kind callable arg gi_index self arguments =
      let tag = arg.type_info.tag in
      let info = arg.type_info.interface_info in
      if is_output arg.direction && arg.is_caller_allocates
      then (if not (is_interface tag)
          then throw (Message.unsupported_type tag arg.name)
          else placed gi_index arguments (caller_allocates arg info.info_type self))
      else if is_interface tag && is_callback info.info_type
      then build_callback arg gi_index arguments
      else build_sized
          (if is_array tag && arg.type_info.is_c_array then arg.type_info.array_length else none)
          callable arg gi_index self arguments

  unfoldable pub build_arg :
      CallableInfo → ArgInfo → ℕ → List ArgumentCache → Result (List ArgumentCache × Bool)
  unfolding setup build_by_kind
  build_arg callable arg gi_index arguments = elim (get_elem? arguments gi_index) [
    | none ↦ abort
    | some self0 ↦ setup arg gi_index self0 >>= λ self.
        build_by_kind callable arg gi_index self (modify arguments gi_index (λ _. self))
  ]
