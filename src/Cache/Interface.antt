-- ===== src/Cache/Interface.antt =====
-- gjs_arg_cache_build_interface_in_arg and gjs_arg_cache_build_normal_in_arg (gi/arg-cache.cpp): the
-- table for an in-argument, by its type.
use text.Mathlib.Text.{◌==◌ as str_eq}
use cjs.Prelude.{Bool, true, false, some, if◌then◌else◌, ◌&&◌, ◌==◌, not}
use cjs.Gi.{TypeTag, Transfer, InterfaceInfo, TypeInfo, InfoType, TypeSystem, nothing, container}
use cjs.Cache.Marshallers.{Marshallers}
use cjs.Cache.Defs.{
  Contents, ArgumentCache, Message, Result, ok, throw, build_enum_bounds, build_flags_mask,
}

abbrev pub is_nothing : Transfer → Bool
is_nothing nothing = true
is_nothing _ = false

abbrev pub is_container : Transfer → Bool
is_container container = true
is_container _ = false

unfoldable pub is_gdk_atom : InterfaceInfo → Bool
is_gdk_atom info = str_eq "Atom" info.name && str_eq "Gdk" info.namespace

abbrev pub use_table : ArgumentCache → Marshallers → Result ArgumentCache
use_table self m = ok (record self { marshallers = some m })

-- For the types that can be borrowed: one table frees what the conversion made, one leaves it.
abbrev pub use_transfer :
    ArgumentCache
    → (is_instance_param : Bool) → (borrowed kept : Marshallers) → Result ArgumentCache
use_transfer self is_instance_param borrowed kept =
    if is_nothing self.transfer && not is_instance_param
    then use_table self borrowed
    else use_table self kept

abbrev pub is_union : InfoType → Bool
is_union InfoType.union = true
is_union _ = false

module _ (types : TypeSystem) where
  open types use {
    value_type, closure_type, bytes_type, object_type, param_type, interface_type, none_type, is_a,
    is_instantiatable,
  }

  -- The case of a registered type, once the type and the info are stored.
  unfoldable pub registered_in_arg :
      ArgumentCache → InterfaceInfo → (is_instance_param : Bool) → Result ArgumentCache
  unfolding is_gdk_atom
  registered_in_arg self info is_instance_param =
      let gtype = info.gtype in
      if gtype == value_type
      then use_transfer self is_instance_param Marshallers.gvalue_in_transfer_none
          Marshallers.gvalue_in
      else if is_gdk_atom info
      then use_table self Marshallers.fallback_interface_in
      else if gtype == closure_type
      then use_transfer self is_instance_param Marshallers.gclosure_in_transfer_none
          Marshallers.gclosure_in
      else if gtype == bytes_type
      then use_transfer self is_instance_param Marshallers.gbytes_in_transfer_none
          Marshallers.gbytes_in
      else if is_a gtype object_type
      then use_table self Marshallers.object_in
      else if is_a gtype param_type
      then use_table self Marshallers.fallback_interface_in
      else if is_union info.info_type
      then (if gtype == none_type
          then throw (Message.unboxed_type self.arg_name)
          else use_table self Marshallers.union_in)
      else if is_instantiatable gtype
      then use_table self Marshallers.fundamental_in
      else if is_a gtype interface_type
      then use_table self Marshallers.interface_in
      else if gtype == none_type && not (is_nothing self.transfer)
      then throw (Message.unboxed_type self.arg_name)
      else use_table self Marshallers.boxed_in

  abbrev with_object : ArgumentCache → InterfaceInfo → ArgumentCache
  with_object self info = record self { contents = Contents.object info.gtype info }

  abbrev struct_in_arg :
      ArgumentCache → InterfaceInfo → (is_instance_param : Bool) → Result ArgumentCache
  struct_in_arg self info is_instance_param =
      if info.is_foreign
      then (if is_instance_param
          then use_table self Marshallers.foreign_struct_instance_in
          else use_table self Marshallers.foreign_struct_in)
      else registered_in_arg (with_object self info) info is_instance_param

  -- The switch on the kind of the interface.
  unfoldable pub interface_switch :
      InfoType → ArgumentCache → InterfaceInfo → (is_instance_param : Bool) → Result ArgumentCache
  unfolding registered_in_arg build_enum_bounds build_flags_mask
  interface_switch InfoType.enum self info inst =
      use_table (build_enum_bounds self info) Marshallers.enum_in
  interface_switch InfoType.flags self info inst =
      use_table (build_flags_mask self info) Marshallers.flags_in
  interface_switch InfoType.structure self info inst = struct_in_arg self info inst
  interface_switch InfoType.boxed self info inst =
      registered_in_arg (with_object self info) info inst
  interface_switch InfoType.object self info inst =
      registered_in_arg (with_object self info) info inst
  interface_switch InfoType.interface self info inst =
      registered_in_arg (with_object self info) info inst
  interface_switch InfoType.union self info inst =
      registered_in_arg (with_object self info) info inst
  interface_switch _ self info inst = throw (Message.not_introspectable self.arg_name)

  unfoldable pub build_interface_in_arg :
      ArgumentCache → InterfaceInfo → (is_instance_param : Bool) → Result ArgumentCache
  unfolding interface_switch
  build_interface_in_arg self info is_instance_param =
      if is_container self.transfer
      then throw (Message.not_introspectable self.arg_name)
      else interface_switch info.info_type self info is_instance_param

  abbrev number_cache : ArgumentCache → TypeTag → ArgumentCache
  number_cache self tag = record self { contents = Contents.number tag }

  abbrev integer_cache : ArgumentCache → TypeTag → Bool → ArgumentCache
  integer_cache self tag is_unsigned = record self {
    contents = Contents.number tag;
    is_unsigned = is_unsigned;
  }

  abbrev string_cache : ArgumentCache → Bool → Result ArgumentCache
  string_cache self is_filename =
      use_table (record self { contents = Contents.string_is_filename is_filename })
        (if is_nothing self.transfer
          then Marshallers.string_in_transfer_none
          else Marshallers.string_in)

  -- The switch on the tag of the type.
  unfoldable pub build_normal_in_arg : ArgumentCache → TypeInfo → TypeTag → Result ArgumentCache
  unfolding build_interface_in_arg
  build_normal_in_arg self info TypeTag.void = use_table self Marshallers.null_in
  build_normal_in_arg self info TypeTag.boolean = use_table self Marshallers.boolean_in
  build_normal_in_arg self info TypeTag.int8 =
      use_table (integer_cache self TypeTag.int8 false) Marshallers.integer_in
  build_normal_in_arg self info TypeTag.int16 =
      use_table (integer_cache self TypeTag.int16 false) Marshallers.integer_in
  build_normal_in_arg self info TypeTag.int32 =
      use_table (integer_cache self TypeTag.int32 false) Marshallers.integer_in
  build_normal_in_arg self info TypeTag.uint8 =
      use_table (integer_cache self TypeTag.uint8 true) Marshallers.integer_in
  build_normal_in_arg self info TypeTag.uint16 =
      use_table (integer_cache self TypeTag.uint16 true) Marshallers.integer_in
  build_normal_in_arg self info TypeTag.uint32 =
      use_table (number_cache self TypeTag.uint32) Marshallers.number_in
  build_normal_in_arg self info TypeTag.int64 =
      use_table (number_cache self TypeTag.int64) Marshallers.number_in
  build_normal_in_arg self info TypeTag.uint64 =
      use_table (number_cache self TypeTag.uint64) Marshallers.number_in
  build_normal_in_arg self info TypeTag.float =
      use_table (number_cache self TypeTag.float) Marshallers.number_in
  build_normal_in_arg self info TypeTag.double =
      use_table (number_cache self TypeTag.double) Marshallers.number_in
  build_normal_in_arg self info TypeTag.unichar = use_table self Marshallers.unichar_in
  build_normal_in_arg self info TypeTag.gtype = use_table self Marshallers.gtype_in
  build_normal_in_arg self info TypeTag.filename = string_cache self true
  build_normal_in_arg self info TypeTag.utf8 = string_cache self false
  build_normal_in_arg self info TypeTag.interface =
      build_interface_in_arg self info.interface_info false
  build_normal_in_arg self info _ = use_table self Marshallers.fallback_in
