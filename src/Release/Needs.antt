-- ===== src/Release/Needs.antt =====
-- Which types need a release (gi/arg.cpp): type_needs_release, type_needs_out_release and the tests
-- for arrays of GValue.
use cjs.Prelude.{Bool, true, false, ◌&&◌, not}
use cjs.Gi.{TypeTag, InfoType}
use cjs.Release.{
  Kind, Interface, TypeInfo, simple, interface_of, glist_of, gslist_of, array_of, ghash_of,
}

abbrev pub is_string : TypeTag → Bool
is_string TypeTag.utf8 = true
is_string TypeTag.filename = true
is_string _ = false

abbrev pub is_number : TypeTag → Bool
is_number TypeTag.boolean = true
is_number TypeTag.int8 = true
is_number TypeTag.uint8 = true
is_number TypeTag.int16 = true
is_number TypeTag.uint16 = true
is_number TypeTag.int32 = true
is_number TypeTag.uint32 = true
is_number TypeTag.int64 = true
is_number TypeTag.uint64 = true
is_number TypeTag.float = true
is_number TypeTag.double = true
is_number TypeTag.unichar = true
is_number TypeTag.gtype = true
is_number _ = false

-- The tags that need a release whatever they hold.
abbrev pub always_released : TypeTag → Bool
always_released TypeTag.utf8 = true
always_released TypeTag.filename = true
always_released TypeTag.array = true
always_released TypeTag.glist = true
always_released TypeTag.gslist = true
always_released TypeTag.ghash = true
always_released TypeTag.error = true
always_released _ = false

-- The GType that type_needs_release reads.
abbrev pub released_gtype : Interface → Kind
released_gtype interface = elim interface.info_type [
  | InfoType.structure ↦ interface.gtype
  | InfoType.enum ↦ interface.gtype
  | InfoType.flags ↦ interface.gtype
  | InfoType.object ↦ interface.gtype
  | InfoType.interface ↦ interface.gtype
  | InfoType.union ↦ interface.gtype
  | InfoType.boxed ↦ interface.gtype
  | InfoType.value ↦ Kind.value
  | _ ↦ Kind.unregistered
]

abbrev pub needs_release_by_kind : Bool → Kind → Bool
needs_release_by_kind is_pointer Kind.closure = true
needs_release_by_kind is_pointer Kind.value = is_pointer
needs_release_by_kind is_pointer _ = false

unfoldable pub type_needs_release : TypeInfo → Bool
type_needs_release (simple tag) = always_released tag
type_needs_release (interface_of is_pointer interface) =
    needs_release_by_kind is_pointer (released_gtype interface)
type_needs_release (glist_of _) = true
type_needs_release (gslist_of _) = true
type_needs_release (array_of _ _ _ _) = true
type_needs_release (ghash_of _ _) = true

abbrev pub is_enum_or_flags : InfoType → Bool
is_enum_or_flags InfoType.enum = true
is_enum_or_flags InfoType.flags = true
is_enum_or_flags _ = false

abbrev pub is_struct_or_union : InfoType → Bool
is_struct_or_union InfoType.structure = true
is_struct_or_union InfoType.union = true
is_struct_or_union _ = false

abbrev pub needs_out_release_by_info : Bool → InfoType → Bool
needs_out_release_by_info is_pointer InfoType.enum = false
needs_out_release_by_info is_pointer InfoType.flags = false
needs_out_release_by_info is_pointer InfoType.structure = is_pointer
needs_out_release_by_info is_pointer InfoType.union = is_pointer
needs_out_release_by_info is_pointer _ = true

unfoldable pub type_needs_out_release : TypeInfo → Bool
type_needs_out_release (simple tag) = always_released tag
type_needs_out_release (interface_of is_pointer interface) =
    needs_out_release_by_info is_pointer interface.info_type
type_needs_out_release (glist_of _) = true
type_needs_out_release (gslist_of _) = true
type_needs_out_release (array_of _ _ _ _) = true
type_needs_out_release (ghash_of _ _) = true

abbrev pub is_value_kind : Kind → Bool
is_value_kind Kind.value = true
is_value_kind _ = false

unfoldable pub is_gvalue : Interface → Bool
is_gvalue interface = elim interface.info_type [
  | InfoType.value ↦ true
  | InfoType.structure ↦ is_value_kind interface.gtype
  | InfoType.object ↦ is_value_kind interface.gtype
  | InfoType.interface ↦ is_value_kind interface.gtype
  | InfoType.boxed ↦ is_value_kind interface.gtype
  | _ ↦ false
]

unfoldable pub is_gvalue_flat_array : TypeInfo → Bool
unfolding is_gvalue
is_gvalue_flat_array (interface_of is_pointer interface) = is_gvalue interface && not is_pointer
is_gvalue_flat_array _ = false
