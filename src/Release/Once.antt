-- ===== src/Release/Once.antt =====
-- Releasing a value that is owned frees every address in it once (gi/arg.cpp).
use mathlib.Core.List.{append-nil}
use cjs.Prelude.{sym, ◌∙◌, ℕ, refl, Bool, Option, [], ◌∷◌, arith}
use cjs.Gi.{Transfer}
use cjs.Release.{TypeInfo, Argument, Arguments, Entries, Free, g_type_info_get_tag, clear}
use cjs.Release.Internal.{
  each, each_last, each_entry, release_simple, release_list, release_ptr_array, release_hash,
  release_hash_value, gjs_g_arg_release_internal, is_boxed_number,
}
use cjs.Release.Entry.{gjs_g_argument_release}
use cjs.Release.Owned.{
  addresses, addresses_all, addresses_of_entries, Holds, HoldsAll, HoldsEntries, number, string,
  no_string, an_error, no_error, an_enum, instance_of, no_instance, foreign_of, a_list, no_list,
  an_slist, no_slist, no_array, flat_array, string_array, number_array, pointer_array,
  number_g_array, pointer_g_array, a_ptr_array, a_byte_array, a_hash, no_hash, no_more, one_more,
  no_entry, one_entry, boxed_entry,
}
use cjs.Release.Cases.{
  Frees, Frees-and_then, Frees-and_last, Frees-if, everything, release_string, release_no_string,
  release_number, Frees-instance, Frees-foreign, Frees-no_instance, Frees-enum,
}
use cjs.Release.Arrays.{
  Frees-flat_array, Frees-string_array, Frees-number_array, Frees-pointer_array,
  Frees-number_g_array, Frees-pointer_g_array,
}
use cjs.Release.{ArrayType, c_array, g_array, ptr_array, byte_array, array_of}

no_array-Frees :
    (kind : ArrayType) (z : Bool) (fixed : Option ℕ) (param : TypeInfo)
    → Frees (gjs_g_arg_release_internal (array_of kind z fixed param) everything Argument.null) []
unfolding gjs_g_arg_release_internal clear
no_array-Frees c_array z fixed param = ([], refl, refl)
no_array-Frees g_array z fixed param = ([], refl, refl)
no_array-Frees ptr_array z fixed param = ([], refl, refl)
no_array-Frees byte_array z fixed param = ([], refl, refl)

mutual
  unfolding gjs_g_arg_release_internal addresses each each_last each_entry release_simple
      release_list release_ptr_array release_hash release_hash_value clear

  releases :
      {type_info : TypeInfo} {arg : Argument}
      → Holds type_info arg
      → Frees (gjs_g_arg_release_internal type_info everything arg) (addresses arg)
  releases (number tag n h) = release_number tag n h
  releases (string tag id h) = release_string tag id h
  releases (no_string tag h) = release_no_string tag h
  releases (an_error id) = ((Free.g_error_free, id) ∷ [], refl, refl)
  releases no_error = ([], refl, refl)
  releases (an_enum p i n h) = Frees-enum p i n h
  releases (instance_of p i id kind foreign enum real) =
      Frees-instance p i id kind foreign enum real
  releases (no_instance p i foreign) = Frees-no_instance p i foreign
  releases (foreign_of p i id kind foreign can) = Frees-foreign p i id kind foreign can
  releases (a_list param id elements h) =
      Frees-and_then (each-Frees h) ((Free.g_list_free, id) ∷ [], refl, refl)
  releases (no_list param) = ([], refl, refl)
  releases (an_slist param id elements h) =
      Frees-and_then (each-Frees h) ((Free.g_slist_free, id) ∷ [], refl, refl)
  releases (no_slist param) = ([], refl, refl)
  releases (no_array kind z fixed param) = no_array-Frees kind z fixed param
  releases (flat_array z param id elements flat shaped) =
      Frees-flat_array z _ _ id elements param (g_type_info_get_tag param) flat refl shaped
  releases (string_array z fixed tag id elements h shaped) =
      Frees-string_array z fixed _ id elements tag h shaped
  releases (number_array z fixed tag id elements h shaped) =
      Frees-number_array z fixed _ id elements tag h shaped
  releases (pointer_array z fixed param id elements own full size h) =
      Frees-pointer_array z fixed _ id elements param own full size (each-Frees h)
  releases (number_g_array z fixed tag id elements h shaped) =
      Frees-number_g_array z fixed _ id elements tag h shaped
  releases (pointer_g_array z fixed param id elements n pointers needs h) =
      Frees-pointer_g_array z fixed _ id elements param n pointers needs (each_last-Frees h)
  releases (a_ptr_array z fixed param id elements h) =
      Frees-and_then (each_last-Frees h) ((Free.g_ptr_array_free, id) ∷ [], refl, refl)
  releases (a_byte_array z fixed param id) = ((Free.g_byte_array_unref, id) ∷ [], refl, refl)
  releases (a_hash key val id pairs h) =
      Frees-and_then (each_entry-Frees h) ((Free.g_hash_table_destroy, id) ∷ [], refl, refl)
  releases (no_hash key val) = ([], refl, refl)

  each-Frees :
      {param : TypeInfo} {elements : Arguments}
      → HoldsAll param elements
      → Frees (each (gjs_g_arg_release_internal param everything) elements) (addresses_all elements)
  each-Frees no_more = ([], refl, refl)
  each-Frees (one_more h rest) = Frees-and_then (releases h) (each-Frees rest)

  each_last-Frees :
      {param : TypeInfo} {elements : Arguments}
      → HoldsAll param elements
      → Frees
          (each_last (gjs_g_arg_release_internal param everything) elements)
          (addresses_all elements)
  each_last-Frees no_more = ([], refl, refl)
  each_last-Frees (one_more h no_more) =
      let (log, e, same) = releases h in (log, e, same ∙ sym (append-nil _))
  each_last-Frees (one_more h (one_more k rest)) =
      Frees-and_last (releases h) (each_last-Frees (one_more k rest))

  each_entry-Frees :
      {key val : TypeInfo} {pairs : Entries}
      → HoldsEntries key val pairs
      → Frees
          (each_entry
            (gjs_g_arg_release_internal key everything)
            (release_hash_value
              (g_type_info_get_tag val)
              (gjs_g_arg_release_internal val everything))
            pairs)
          (addresses_of_entries pairs)
  each_entry-Frees no_entry = ([], refl, refl)
  each_entry-Frees (one_entry {val = val} h small k rest) =
      Frees-and_then
        (Frees-and_then (releases h) (
          Frees-if (is_boxed_number (g_type_info_get_tag val))
            (λ bad. absurd (ground (arith, small, bad))) (λ _. releases k)))
        (each_entry-Frees rest)
  each_entry-Frees (boxed_entry {val = val} {id = id} h large rest) =
      Frees-and_then
        (Frees-and_then (releases h) (
          Frees-if (is_boxed_number (g_type_info_get_tag val))
            (λ _. ((Free.g_free, id) ∷ [], refl, refl))
            (λ bad. absurd (ground (arith, large, bad)))))
        (each_entry-Frees rest)

-- Releasing a value that C has given up, where the value has the shape of its type and the code knows
-- how to release the type of every instance in it: it succeeds, and every address in the value is freed exactly once, the elements before what holds them. A
-- GArray holds numbers, or elements that need a release.
pub gjs_g_argument_release_lem :
    (type_info : TypeInfo) (arg : Argument)
    → Holds type_info arg
    → Frees (gjs_g_argument_release Transfer.everything type_info arg) (addresses arg)
unfolding gjs_g_argument_release
gjs_g_argument_release_lem type_info arg h = releases h
