-- ===== src/Gi.antt =====
-- What the callers of GObject-Introspection read from a typelib. The library is not part of this
-- repository: a callable is an argument of the definitions that use it, as the record of what the
-- accessors `g_callable_info_…`, `g_arg_info_…`, `g_type_info_…` and `g_base_info_…` return.
pub mod Samples
use cjs.Prelude.{ℕ, Bool, Option, List, String}
use cjs.Prelude.Int.{ℤ}

pub data TypeTag : Type 0 where
  void boolean int8 uint8 int16 uint16 int32 uint32 int64 uint64 float double gtype utf8 : TypeTag
  filename array interface glist gslist ghash error unichar : TypeTag

pub data InfoType : Type 0 where
  invalid function callback structure boxed enum flags object interface constant : InfoType
  invalid_0 union value signal vfunc property field arg type unresolved : InfoType

pub data Transfer : Type 0 where
  nothing container everything : Transfer

pub data ArgDirection : Type 0 where
  input output inout : ArgDirection

pub data ScopeType : Type 0 where
  invalid call async notified : ScopeType

pub record InterfaceInfo : Type 0 where
  pub info_type : InfoType
  pub name : String
  pub namespace : String
  pub gtype : ℕ
  pub is_foreign : Bool
  pub is_gtype_struct : Bool
  pub size : ℕ
  pub values : List ℤ  -- of an enum or a flags type, in order

-- A position that the library gives as a negative number is `none`. The interface is read only
-- under the tag `interface`.
pub record TypeInfo : Type 0 where
  pub tag : TypeTag
  pub is_c_array : Bool
  pub array_length : Option ℕ
  pub interface_info : InterfaceInfo

pub record ArgInfo : Type 0 where
  pub name : String
  pub type_info : TypeInfo
  pub transfer : Transfer
  pub may_be_null : Bool
  pub direction : ArgDirection
  pub is_caller_allocates : Bool
  pub destroy : Option ℕ
  pub closure : Option ℕ
  pub scope : ScopeType

pub record CallableInfo : Type 0 where
  pub is_method : Bool
  pub args : List ArgInfo
  pub return_type : TypeInfo
  pub caller_owns : Transfer
  pub instance_transfer : Transfer
  pub container : InterfaceInfo
  pub can_throw_gerror : Bool

-- GObject's types are numbers; the tests on them are the library's.
pub record TypeSystem : Type 0 where
  pub value_type : ℕ
  pub closure_type : ℕ
  pub bytes_type : ℕ
  pub object_type : ℕ
  pub param_type : ℕ
  pub interface_type : ℕ
  pub none_type : ℕ
  pub is_a : ℕ → ℕ → Bool
  pub is_instantiatable : ℕ → Bool
