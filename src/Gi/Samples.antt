-- ===== src/Gi/Samples.antt =====
-- A small typelib for the tests.
use cjs.Prelude.{true, false, none, some, [], ◌∷◌, ◌==◌}
use cjs.Gi.{
  TypeTag, InfoType, Transfer, input, ScopeType, InterfaceInfo, TypeInfo, ArgInfo, CallableInfo,
  TypeSystem,
}

abbrev pub no_types : TypeSystem
no_types = record {
  value_type = 1;
  closure_type = 2;
  bytes_type = 3;
  object_type = 4;
  param_type = 5;
  interface_type = 6;
  none_type = 0;
  is_a = λ a b. a == b;
  is_instantiatable = λ a. false;
}

abbrev pub no_interface : InterfaceInfo
no_interface = record {
  info_type = InfoType.invalid;
  name = "";
  namespace = "";
  gtype = 0;
  is_foreign = false;
  is_gtype_struct = false;
  size = 0;
  values = [];
}

abbrev pub plain_type : TypeTag → TypeInfo
plain_type tag = record {
  tag = tag;
  is_c_array = false;
  array_length = none;
  interface_info = no_interface;
}

abbrev pub int_arg : ArgInfo
int_arg = record {
  name = "n";
  type_info = plain_type TypeTag.int32;
  transfer = Transfer.nothing;
  may_be_null = false;
  direction = input;
  is_caller_allocates = false;
  destroy = none;
  closure = none;
  scope = ScopeType.invalid;
}

-- An array whose length is the second argument.
abbrev pub array_arg : ArgInfo
array_arg = record int_arg {
  name = "items";
  type_info = record (plain_type TypeTag.array) { is_c_array = true; array_length = some 1 };
}

-- `int sum (const int *items, int n)`
abbrev pub sum_info : CallableInfo
sum_info = record {
  is_method = false;
  args = array_arg ∷ int_arg ∷ [];
  return_type = plain_type TypeTag.int32;
  caller_owns = Transfer.nothing;
  instance_transfer = Transfer.nothing;
  container = no_interface;
  can_throw_gerror = true;
}
