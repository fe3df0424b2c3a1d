-- ===== src/Release/Internal.antt =====
-- gjs_g_arg_release_internal (gi/arg.cpp), with one definition for each group of its cases.
use cjs.Prelude.{ℕ, Bool, true, false, Option, none, some, [], ◌++◌, if◌then◌else◌, ◌&&◌, ◌||◌, not}
use cjs.Gi.{TypeTag, InfoType, Transfer}
use cjs.Release.{
  Kind, Interface, TypeInfo, simple, interface_of, glist_of, gslist_of, array_of, ghash_of, c_array,
  g_array, ptr_array, byte_array, Argument, instance_at, Arguments, nil, cons, Entries, end, entry,
  Free, g_free, g_error_free, g_object_unref, g_param_spec_unref, g_closure_unref, g_boxed_free,
  g_value_unset, g_variant_unref, unref_function, foreign_release, g_list_free, g_slist_free,
  g_strfreev, g_array_unref, g_array_free, g_byte_array_unref, g_ptr_array_free,
  g_hash_table_destroy, Outcome, done, throws, address, items, entries, clear, g_type_info_get_tag,
  both, take_items, until_null,
}
use cjs.Release.Needs.{
  is_string, is_number, is_enum_or_flags, is_struct_or_union, type_needs_out_release,
  is_gvalue_flat_array,
}

-- A GITransfer, or TRANSFER_IN_NOTHING.
pub data Mode : Type 0 where
  transfer : Transfer → Mode
  transfer_in_nothing : Mode

abbrev pub is_in_nothing : Mode → Bool
is_in_nothing transfer_in_nothing = true
is_in_nothing _ = false

abbrev pub is_container : Mode → Bool
is_container (transfer Transfer.container) = true
is_container _ = false

abbrev pub is_nothing : Mode → Bool
is_nothing (transfer Transfer.nothing) = true
is_nothing _ = false

-- An outcome, or a failed assertion.
abbrev pub and_then : Option Outcome → Option Outcome → Option Outcome
and_then (some a) (some b) = some (both a b)
and_then _ _ = none

abbrev pub replace_ok : Outcome → Outcome → Outcome
replace_ok (ok, log) (ok', log') = (ok', log ++ log')

-- `failed = !…`: the result is that of the second.
abbrev pub and_last : Option Outcome → Option Outcome → Option Outcome
and_last (some a) (some b) = some (replace_ok a b)
and_last _ _ = none

-- The loops over elements: `failed` is set by any, or is that of the last.
unfoldable pub each : (Argument → Option Outcome) → Arguments → Option Outcome
each release nil = some done
each release (cons element rest) = and_then (release element) (each release rest)

unfoldable pub each_last : (Argument → Option Outcome) → Arguments → Option Outcome
each_last release nil = some done
each_last release (cons element nil) = release element
each_last release (cons element rest) = and_last (release element) (each_last release rest)

unfoldable pub each_entry :
    (Argument → Option Outcome) → (Argument → Option Outcome) → Entries → Option Outcome
each_entry key val end = some done
each_entry key val (entry k v rest) = and_then (and_then (key k) (val v)) (each_entry key val rest)

-- g_value_unset on every GValue of a flat array.
abbrev pub unset_all : Arguments → Option Outcome
unset_all elements = each (λ element. some (clear g_value_unset element)) elements

-- g_strfreev frees the strings before the null pointer, and the array.
abbrev pub free_strings : Argument → Option Outcome
free_strings arg =
    and_then (each (λ element. some (clear g_free element)) (until_null (items arg)))
      (some (clear g_strfreev arg))

abbrev pub unless : Bool → Outcome → Outcome
unless true outcome = done
unless false outcome = outcome

unfoldable pub release_simple : TypeTag → Mode → Argument → Option Outcome
unfolding clear
release_simple TypeTag.utf8 mode arg = some (clear g_free arg)
release_simple TypeTag.filename mode arg = some (clear g_free arg)
release_simple TypeTag.error mode arg = some (unless (is_in_nothing mode) (clear g_error_free arg))
release_simple TypeTag.interface mode arg = none
release_simple TypeTag.array mode arg = none
release_simple TypeTag.glist mode arg = none
release_simple TypeTag.gslist mode arg = none
release_simple TypeTag.ghash mode arg = none
release_simple _ mode arg = some done

-- The chain of tests on the GType.
unfoldable pub release_instance : Kind → Bool → Mode → Argument → Outcome
unfolding clear
release_instance Kind.object is_pointer mode arg =
    unless (is_in_nothing mode) (clear g_object_unref arg)
release_instance Kind.param is_pointer mode arg =
    unless (is_in_nothing mode) (clear g_param_spec_unref arg)
release_instance Kind.closure is_pointer mode arg = clear g_closure_unref arg
release_instance Kind.value is_pointer mode arg =
    if is_pointer then clear g_boxed_free arg else clear g_value_unset arg
release_instance Kind.boxed is_pointer mode arg =
    unless (is_in_nothing mode) (clear g_boxed_free arg)
release_instance Kind.variant is_pointer mode arg =
    unless (is_in_nothing mode) (clear g_variant_unref arg)
release_instance Kind.unregistered is_pointer mode arg = unless (is_in_nothing mode) throws
release_instance Kind.instantiatable is_pointer mode arg =
    unless (is_in_nothing mode) (clear unref_function arg)
release_instance Kind.other is_pointer mode arg = throws

abbrev pub is_structure : InfoType → Bool
is_structure InfoType.structure = true
is_structure _ = false

-- Where the registered type is instantiatable or an interface, the type of the instance itself is
-- taken instead.
abbrev pub gtype_of : Interface → Argument → Kind
gtype_of interface (instance_at _ kind) =
    if interface.has_type_instances then kind else interface.gtype
gtype_of interface _ = interface.gtype

unfoldable pub release_interface : Bool → Interface → Mode → Argument → Outcome
unfolding release_instance clear
release_interface is_pointer interface mode arg =
    if is_structure interface.info_type && interface.is_foreign
    then both (interface.foreign_releases, []) (clear foreign_release arg)
    else if is_enum_or_flags interface.info_type
    then done
    else elim (address arg) [
      | none ↦ done
      | some _ ↦ release_instance (gtype_of interface arg) is_pointer mode arg
    ]

-- GList and GSList. `release` is the release of an element.
unfoldable pub release_list : Free → (Argument → Option Outcome) → Mode → Argument → Option Outcome
unfolding each clear
release_list how release mode arg =
    and_then (if is_container mode then some done else each release (items arg))
      (some (clear how arg))

unfoldable pub release_flat_array : Option ℕ → Mode → Argument → Option Outcome
unfolding each clear
release_flat_array fixed_size mode arg =
    if is_container mode then some (clear g_free arg) else elim fixed_size [
      | none ↦ some throws
      | some len ↦ and_then (unset_all (take_items len (items arg))) (some (clear g_free arg))
    ]

-- The elements of a C array; `release` frees one with GI_TRANSFER_EVERYTHING.
abbrev pub release_elements :
    Bool → Option ℕ → (Argument → Option Outcome) → Argument → Option Outcome
release_elements true fixed_size release arg = each release (until_null (items arg))
release_elements false none release arg = none
release_elements false (some len) release arg = each release (take_items len (items arg))

abbrev pub is_embedded : TypeInfo → Bool
is_embedded (interface_of is_pointer interface) =
    not is_pointer && is_struct_or_union interface.info_type
is_embedded _ = false

abbrev pub holds_pointers : TypeTag → Bool
holds_pointers TypeTag.interface = true
holds_pointers TypeTag.glist = true
holds_pointers TypeTag.gslist = true
holds_pointers TypeTag.array = true
holds_pointers TypeTag.ghash = true
holds_pointers TypeTag.error = true
holds_pointers _ = false

unfoldable pub release_c_array :
    Bool
    → Option ℕ
    → TypeInfo
    → TypeTag
    → (Argument → Option Outcome)
    → Mode
    → Argument
    → Option Outcome
unfolding release_flat_array type_needs_out_release is_gvalue_flat_array each clear
release_c_array is_zero_terminated fixed_size param tag release mode arg =
    if is_gvalue_flat_array param
    then release_flat_array fixed_size mode arg
    else if is_string tag
    then (if is_container mode then some (clear g_free arg) else free_strings arg)
    else if is_number tag || is_embedded param
    then some (clear g_free arg)
    else if holds_pointers tag
    then and_then
        (if not (is_container mode) && type_needs_out_release param
          then release_elements is_zero_terminated fixed_size release arg
          else some done)
        (some (clear g_free arg))
    else some throws

-- `release` frees an element in the same mode.
unfoldable pub release_g_array :
    TypeInfo → TypeTag → (Argument → Option Outcome) → Mode → Argument → Option Outcome
unfolding type_needs_out_release each_last clear
release_g_array param tag release mode arg =
    if is_number tag
    then some (clear g_array_unref arg)
    else if is_string tag || holds_pointers tag
    then (if is_container mode
        then some (clear g_array_unref arg)
        else if type_needs_out_release param
        then and_then (each_last release (items arg)) (some (clear g_array_free arg))
        else some done)
    else some throws

unfoldable pub release_ptr_array : (Argument → Option Outcome) → Mode → Argument → Option Outcome
unfolding each_last clear
release_ptr_array release mode arg =
    and_then (if is_container mode then some done else each_last release (items arg))
      (some (clear g_ptr_array_free arg))

-- Values of 64 bits are allocated on their own in a hash table.
abbrev pub is_boxed_number : TypeTag → Bool
is_boxed_number TypeTag.int64 = true
is_boxed_number TypeTag.uint64 = true
is_boxed_number TypeTag.float = true
is_boxed_number TypeTag.double = true
is_boxed_number _ = false

-- gjs_ghr_helper, on the value.
unfoldable pub release_hash_value :
    TypeTag → (Argument → Option Outcome) → Argument → Option Outcome
unfolding clear
release_hash_value tag release arg =
    if is_boxed_number tag then some (clear g_free arg) else release arg

unfoldable pub release_hash :
    TypeTag
    → (Argument → Option Outcome)
    → (Argument → Option Outcome)
    → Mode
    → Argument
    → Option Outcome
unfolding each_entry release_hash_value clear
release_hash tag key val mode arg =
    and_then
      (if is_container mode
        then some done
        else each_entry key (release_hash_value tag val) (entries arg))
      (some (clear g_hash_table_destroy arg))

unfoldable pub gjs_g_arg_release_internal : TypeInfo → Mode → Argument → Option Outcome
unfolding release_simple release_interface release_list release_c_array release_g_array
    release_ptr_array release_hash clear
gjs_g_arg_release_internal (simple tag) mode arg = elim (is_nothing mode) [
  | true ↦ none
  | false ↦ release_simple tag mode arg
]
gjs_g_arg_release_internal (interface_of is_pointer interface) mode arg = elim (is_nothing mode) [
  | true ↦ none
  | false ↦ some (release_interface is_pointer interface mode arg)
]
gjs_g_arg_release_internal (glist_of param) mode arg = elim (is_nothing mode) [
  | true ↦ none
  | false ↦ release_list g_list_free (gjs_g_arg_release_internal param mode) mode arg
]
gjs_g_arg_release_internal (gslist_of param) mode arg = elim (is_nothing mode) [
  | true ↦ none
  | false ↦ release_list g_slist_free (gjs_g_arg_release_internal param mode) mode arg
]
gjs_g_arg_release_internal (array_of c_array is_zero_terminated fixed_size param) mode arg =
    elim (is_nothing mode) [
      | true ↦ none
      | false ↦ elim (address arg) [
        | none ↦ some done
        | some _ ↦
            release_c_array is_zero_terminated fixed_size param (g_type_info_get_tag param)
              (gjs_g_arg_release_internal param (transfer Transfer.everything)) mode arg
      ]
    ]
gjs_g_arg_release_internal (array_of g_array is_zero_terminated fixed_size param) mode arg =
    elim (is_nothing mode) [
      | true ↦ none
      | false ↦ elim (address arg) [
        | none ↦ some done
        | some _ ↦
            release_g_array param (g_type_info_get_tag param)
              (gjs_g_arg_release_internal param mode) mode arg
      ]
    ]
gjs_g_arg_release_internal (array_of ptr_array is_zero_terminated fixed_size param) mode arg =
    elim (is_nothing mode) [
      | true ↦ none
      | false ↦ elim (address arg) [
        | none ↦ some done
        | some _ ↦ release_ptr_array (gjs_g_arg_release_internal param mode) mode arg
      ]
    ]
gjs_g_arg_release_internal (array_of byte_array is_zero_terminated fixed_size param) mode arg =
    elim (is_nothing mode) [ true ↦ none | false ↦ some (clear g_byte_array_unref arg) ]
gjs_g_arg_release_internal (ghash_of key val) mode arg = elim (is_nothing mode) [
  | true ↦ none
  | false ↦ elim (address arg) [
    | none ↦ some done
    | some _ ↦
        release_hash (g_type_info_get_tag val) (gjs_g_arg_release_internal key mode)
          (gjs_g_arg_release_internal val mode) mode arg
  ]
]
