-- ===== src/Cache/Marshallers.antt =====
-- The tables of gi/arg-cache.cpp: for each kind of argument the functions that convert it before
-- the call, convert it after the call, release it, and free its cache. `none` is a null pointer.
use cjs.Prelude.{Bool, true, false, Option, none, some}

pub data Marshallers : Type 0 where
  skip_all return_value return_array array_length_out fallback_in : Marshallers
  fallback_interface_in fallback_inout fallback_out invalid_in enum_in : Marshallers
  flags_in foreign_struct_in foreign_struct_instance_in gvalue_in : Marshallers
  gvalue_in_transfer_none gclosure_in gclosure_in_transfer_none gbytes_in : Marshallers
  gbytes_in_transfer_none object_in interface_in fundamental_in union_in : Marshallers
  boxed_in null_in boolean_in integer_in number_in unichar_in gtype_in : Marshallers
  string_in string_in_transfer_none gtype_struct_instance_in : Marshallers
  param_instance_in callback_in c_array_in c_array_inout c_array_out : Marshallers
  caller_allocates_out : Marshallers

pub data InMarshaller : Type 0 where
  skipped generic_out generic_in generic_inout enum flags foreign gvalue : InMarshaller
  gclosure gbytes object interface fundamental union boxed null boolean : InMarshaller
  integer number unichar gtype string gtype_struct_instance param_instance : InMarshaller
  callback explicit_array_in explicit_array_inout caller_allocates : InMarshaller

pub data OutMarshaller : Type 0 where
  skipped generic explicit_array : OutMarshaller

pub data ReleaseMarshaller : Type 0 where
  skipped generic_out explicit_array_out generic_in generic_inout foreign_in : ReleaseMarshaller
  boxed_in string_in callback explicit_array_in explicit_array_inout : ReleaseMarshaller
  caller_allocates : ReleaseMarshaller

unfoldable pub marshal_in : Marshallers → Option InMarshaller
marshal_in Marshallers.skip_all = some InMarshaller.skipped
marshal_in Marshallers.return_value = none
marshal_in Marshallers.return_array = some InMarshaller.generic_out
marshal_in Marshallers.array_length_out = some InMarshaller.generic_out
marshal_in Marshallers.fallback_in = some InMarshaller.generic_in
marshal_in Marshallers.fallback_interface_in = some InMarshaller.generic_in
marshal_in Marshallers.fallback_inout = some InMarshaller.generic_inout
marshal_in Marshallers.fallback_out = some InMarshaller.generic_out
marshal_in Marshallers.invalid_in = none
marshal_in Marshallers.enum_in = some InMarshaller.enum
marshal_in Marshallers.flags_in = some InMarshaller.flags
marshal_in Marshallers.foreign_struct_in = some InMarshaller.foreign
marshal_in Marshallers.foreign_struct_instance_in = some InMarshaller.foreign
marshal_in Marshallers.gvalue_in = some InMarshaller.gvalue
marshal_in Marshallers.gvalue_in_transfer_none = some InMarshaller.gvalue
marshal_in Marshallers.gclosure_in = some InMarshaller.gclosure
marshal_in Marshallers.gclosure_in_transfer_none = some InMarshaller.gclosure
marshal_in Marshallers.gbytes_in = some InMarshaller.gbytes
marshal_in Marshallers.gbytes_in_transfer_none = some InMarshaller.gbytes
marshal_in Marshallers.object_in = some InMarshaller.object
marshal_in Marshallers.interface_in = some InMarshaller.interface
marshal_in Marshallers.fundamental_in = some InMarshaller.fundamental
marshal_in Marshallers.union_in = some InMarshaller.union
marshal_in Marshallers.boxed_in = some InMarshaller.boxed
marshal_in Marshallers.null_in = some InMarshaller.null
marshal_in Marshallers.boolean_in = some InMarshaller.boolean
marshal_in Marshallers.integer_in = some InMarshaller.integer
marshal_in Marshallers.number_in = some InMarshaller.number
marshal_in Marshallers.unichar_in = some InMarshaller.unichar
marshal_in Marshallers.gtype_in = some InMarshaller.gtype
marshal_in Marshallers.string_in = some InMarshaller.string
marshal_in Marshallers.string_in_transfer_none = some InMarshaller.string
marshal_in Marshallers.gtype_struct_instance_in = some InMarshaller.gtype_struct_instance
marshal_in Marshallers.param_instance_in = some InMarshaller.param_instance
marshal_in Marshallers.callback_in = some InMarshaller.callback
marshal_in Marshallers.c_array_in = some InMarshaller.explicit_array_in
marshal_in Marshallers.c_array_inout = some InMarshaller.explicit_array_inout
marshal_in Marshallers.c_array_out = some InMarshaller.generic_out
marshal_in Marshallers.caller_allocates_out = some InMarshaller.caller_allocates

unfoldable pub marshal_out : Marshallers → Option OutMarshaller
marshal_out Marshallers.skip_all = some OutMarshaller.skipped
marshal_out Marshallers.return_value = some OutMarshaller.generic
marshal_out Marshallers.return_array = some OutMarshaller.explicit_array
marshal_out Marshallers.array_length_out = some OutMarshaller.skipped
marshal_out Marshallers.fallback_in = some OutMarshaller.skipped
marshal_out Marshallers.fallback_interface_in = some OutMarshaller.skipped
marshal_out Marshallers.fallback_inout = some OutMarshaller.generic
marshal_out Marshallers.fallback_out = some OutMarshaller.generic
marshal_out Marshallers.invalid_in = some OutMarshaller.skipped
marshal_out Marshallers.enum_in = some OutMarshaller.skipped
marshal_out Marshallers.flags_in = some OutMarshaller.skipped
marshal_out Marshallers.foreign_struct_in = some OutMarshaller.skipped
marshal_out Marshallers.foreign_struct_instance_in = some OutMarshaller.skipped
marshal_out Marshallers.gvalue_in = some OutMarshaller.skipped
marshal_out Marshallers.gvalue_in_transfer_none = some OutMarshaller.skipped
marshal_out Marshallers.gclosure_in = some OutMarshaller.skipped
marshal_out Marshallers.gclosure_in_transfer_none = some OutMarshaller.skipped
marshal_out Marshallers.gbytes_in = some OutMarshaller.skipped
marshal_out Marshallers.gbytes_in_transfer_none = some OutMarshaller.skipped
marshal_out Marshallers.object_in = some OutMarshaller.skipped
marshal_out Marshallers.interface_in = some OutMarshaller.skipped
marshal_out Marshallers.fundamental_in = some OutMarshaller.skipped
marshal_out Marshallers.union_in = some OutMarshaller.skipped
marshal_out Marshallers.boxed_in = some OutMarshaller.skipped
marshal_out Marshallers.null_in = some OutMarshaller.skipped
marshal_out Marshallers.boolean_in = some OutMarshaller.skipped
marshal_out Marshallers.integer_in = some OutMarshaller.skipped
marshal_out Marshallers.number_in = some OutMarshaller.skipped
marshal_out Marshallers.unichar_in = some OutMarshaller.skipped
marshal_out Marshallers.gtype_in = some OutMarshaller.skipped
marshal_out Marshallers.string_in = some OutMarshaller.skipped
marshal_out Marshallers.string_in_transfer_none = some OutMarshaller.skipped
marshal_out Marshallers.gtype_struct_instance_in = none
marshal_out Marshallers.param_instance_in = none
marshal_out Marshallers.callback_in = some OutMarshaller.skipped
marshal_out Marshallers.c_array_in = some OutMarshaller.skipped
marshal_out Marshallers.c_array_inout = some OutMarshaller.explicit_array
marshal_out Marshallers.c_array_out = some OutMarshaller.explicit_array
marshal_out Marshallers.caller_allocates_out = some OutMarshaller.generic

unfoldable pub release : Marshallers → ReleaseMarshaller
release Marshallers.skip_all = ReleaseMarshaller.skipped
release Marshallers.return_value = ReleaseMarshaller.generic_out
release Marshallers.return_array = ReleaseMarshaller.explicit_array_out
release Marshallers.array_length_out = ReleaseMarshaller.skipped
release Marshallers.fallback_in = ReleaseMarshaller.generic_in
release Marshallers.fallback_interface_in = ReleaseMarshaller.generic_in
release Marshallers.fallback_inout = ReleaseMarshaller.generic_inout
release Marshallers.fallback_out = ReleaseMarshaller.generic_out
release Marshallers.invalid_in = ReleaseMarshaller.skipped
release Marshallers.enum_in = ReleaseMarshaller.skipped
release Marshallers.flags_in = ReleaseMarshaller.skipped
release Marshallers.foreign_struct_in = ReleaseMarshaller.foreign_in
release Marshallers.foreign_struct_instance_in = ReleaseMarshaller.skipped
release Marshallers.gvalue_in = ReleaseMarshaller.skipped
release Marshallers.gvalue_in_transfer_none = ReleaseMarshaller.boxed_in
release Marshallers.gclosure_in = ReleaseMarshaller.skipped
release Marshallers.gclosure_in_transfer_none = ReleaseMarshaller.boxed_in
release Marshallers.gbytes_in = ReleaseMarshaller.skipped
release Marshallers.gbytes_in_transfer_none = ReleaseMarshaller.boxed_in
release Marshallers.object_in = ReleaseMarshaller.skipped
release Marshallers.interface_in = ReleaseMarshaller.skipped
release Marshallers.fundamental_in = ReleaseMarshaller.skipped
release Marshallers.union_in = ReleaseMarshaller.skipped
release Marshallers.boxed_in = ReleaseMarshaller.skipped
release Marshallers.null_in = ReleaseMarshaller.skipped
release Marshallers.boolean_in = ReleaseMarshaller.skipped
release Marshallers.integer_in = ReleaseMarshaller.skipped
release Marshallers.number_in = ReleaseMarshaller.skipped
release Marshallers.unichar_in = ReleaseMarshaller.skipped
release Marshallers.gtype_in = ReleaseMarshaller.skipped
release Marshallers.string_in = ReleaseMarshaller.skipped
release Marshallers.string_in_transfer_none = ReleaseMarshaller.string_in
release Marshallers.gtype_struct_instance_in = ReleaseMarshaller.skipped
release Marshallers.param_instance_in = ReleaseMarshaller.skipped
release Marshallers.callback_in = ReleaseMarshaller.callback
release Marshallers.c_array_in = ReleaseMarshaller.explicit_array_in
release Marshallers.c_array_inout = ReleaseMarshaller.explicit_array_inout
release Marshallers.c_array_out = ReleaseMarshaller.explicit_array_out
release Marshallers.caller_allocates_out = ReleaseMarshaller.caller_allocates

-- Whether the table has `gjs_arg_cache_interface_free`, which drops the reference to the info.
unfoldable pub frees_interface : Marshallers → Bool
frees_interface Marshallers.skip_all = false
frees_interface Marshallers.return_value = false
frees_interface Marshallers.return_array = false
frees_interface Marshallers.array_length_out = false
frees_interface Marshallers.fallback_in = false
frees_interface Marshallers.fallback_interface_in = true
frees_interface Marshallers.fallback_inout = false
frees_interface Marshallers.fallback_out = false
frees_interface Marshallers.invalid_in = false
frees_interface Marshallers.enum_in = false
frees_interface Marshallers.flags_in = false
frees_interface Marshallers.foreign_struct_in = false
frees_interface Marshallers.foreign_struct_instance_in = false
frees_interface Marshallers.gvalue_in = true
frees_interface Marshallers.gvalue_in_transfer_none = true
frees_interface Marshallers.gclosure_in = true
frees_interface Marshallers.gclosure_in_transfer_none = true
frees_interface Marshallers.gbytes_in = true
frees_interface Marshallers.gbytes_in_transfer_none = true
frees_interface Marshallers.object_in = true
frees_interface Marshallers.interface_in = true
frees_interface Marshallers.fundamental_in = true
frees_interface Marshallers.union_in = true
frees_interface Marshallers.boxed_in = true
frees_interface Marshallers.null_in = false
frees_interface Marshallers.boolean_in = false
frees_interface Marshallers.integer_in = false
frees_interface Marshallers.number_in = false
frees_interface Marshallers.unichar_in = false
frees_interface Marshallers.gtype_in = false
frees_interface Marshallers.string_in = false
frees_interface Marshallers.string_in_transfer_none = false
frees_interface Marshallers.gtype_struct_instance_in = false
frees_interface Marshallers.param_instance_in = false
frees_interface Marshallers.callback_in = false
frees_interface Marshallers.c_array_in = false
frees_interface Marshallers.c_array_inout = false
frees_interface Marshallers.c_array_out = false
frees_interface Marshallers.caller_allocates_out = false
