-- ===== src/Release/Borrowed.antt =====
-- What releasing an in-argument leaves alone (gi/arg.cpp).
use cjs.Prelude.{ℕ, ◌≡◌, refl, Bool, true, false, Option, none, some, ◌&&◌, ◌||◌, not, arith}
use cjs.Function.Order.{Every, Every-if}
use cjs.Gi.{TypeTag, Transfer}
use cjs.Release.{
  TypeInfo, simple, interface_of, glist_of, gslist_of, array_of, ghash_of, c_array, g_array,
  ptr_array, byte_array, Argument, Free, g_free, g_list_free, g_slist_free, g_value_unset,
  g_array_unref, g_array_free, g_byte_array_unref, g_ptr_array_free, g_hash_table_destroy, Outcome,
  done, throws, clear, address, items, entries, take_items, until_null, g_type_info_get_tag,
}
use cjs.Release.Needs.{
  is_string, is_number, is_gvalue_flat_array, type_needs_release, type_needs_out_release,
}
use cjs.Release.Internal.{
  transfer_in_nothing, and_then, each, release_list, release_c_array, release_flat_array,
  release_g_array, release_ptr_array, release_hash, release_hash_value, gjs_g_arg_release_internal,
  is_embedded, holds_pointers, is_boxed_number, unset_all,
}
use cjs.Release.Entry.{is_transfer_nothing, gjs_g_argument_release_in_arg}
use cjs.Release.Keeping.{
  Keeps, Safe, Safe-done, Safe-throws, Safe-clear, each-Safe, each_last-Safe, each_entry-Safe,
  release_simple-Safe, release_interface-Safe, clears-Safe,
}

-- A type in which no C array holds pointers that are released one by one.
abbrev pub has_no_pointer_array : TypeInfo → Bool
has_no_pointer_array (simple _) = true
has_no_pointer_array (interface_of _ _) = true
has_no_pointer_array (glist_of param) = has_no_pointer_array param
has_no_pointer_array (gslist_of param) = has_no_pointer_array param
has_no_pointer_array (array_of c_array _ _ param) = not (type_needs_out_release param)
has_no_pointer_array (array_of _ _ _ param) = has_no_pointer_array param
has_no_pointer_array (ghash_of key val) = has_no_pointer_array key && has_no_pointer_array val

release_c_array-Safe :
    (z : Bool) (fixed : Option ℕ) (param : TypeInfo) (tag : TypeTag)
    (release : Argument → Option Outcome) (arg : Argument)
    → type_needs_out_release param ≡ false
    → Safe (release_c_array z fixed param tag release transfer_in_nothing arg)
unfolding release_c_array release_flat_array
release_c_array-Safe z fixed param tag release arg h =
    Every-if (is_gvalue_flat_array param) (λ _. flat fixed)
      λ _.
        Every-if (is_string tag)
          (λ _.
            clears-Safe Free.g_strfreev arg
              (each (λ e. some (clear g_free e)) (until_null (items arg))) refl
              (each-Safe (λ e. some (clear g_free e)) (until_null (items arg))
                (λ e. Safe-clear g_free e refl)))
          λ _.
            Every-if (is_number tag || is_embedded param) (λ _. Safe-clear g_free arg refl)
              λ _.
                Every-if (holds_pointers tag)
                  (λ _. clears-Safe g_free arg _ refl (
                    Every-if (true && type_needs_out_release param)
                      (λ bad. absurd (ground (arith, h, bad))) (λ _. Safe-done)))
                  (λ _. Safe-throws)
  where
    flat :
        (fixed : Option ℕ)
        → Safe (elim fixed [
          | none ↦ some throws
          | some len ↦ and_then (unset_all (take_items len (items arg))) (some (clear g_free arg))
        ])
    flat none = Safe-throws
    flat (some len) = clears-Safe g_free arg (unset_all (take_items len (items arg))) refl (
        each-Safe (λ e. some (clear g_value_unset e)) (take_items len (items arg))
          (λ e. Safe-clear g_value_unset e refl))

release_g_array-Safe :
    (param : TypeInfo) (tag : TypeTag) (release : Argument → Option Outcome) (arg : Argument)
    → ((e : Argument) → Safe (release e))
    → Safe (release_g_array param tag release transfer_in_nothing arg)
unfolding release_g_array
release_g_array-Safe param tag release arg h =
    Every-if (is_number tag) (λ _. Safe-clear g_array_unref arg refl)
      λ _.
        Every-if (is_string tag || holds_pointers tag)
          (λ _.
            Every-if (type_needs_out_release param)
              (λ _. clears-Safe g_array_free arg _ refl (each_last-Safe release (items arg) h))
              (λ _. Safe-done))
          (λ _. Safe-throws)

at_address :
    (o : Option ℕ) (x : Option Outcome) → Safe x → Safe (elim o [ none ↦ some done | some _ ↦ x ])
at_address none x h = Safe-done
at_address (some id) x h = h

internal-Safe :
    (type_info : TypeInfo) (arg : Argument)
    → has_no_pointer_array type_info ≡ true
    → Safe (gjs_g_arg_release_internal type_info transfer_in_nothing arg)
unfolding gjs_g_arg_release_internal release_list release_ptr_array release_hash release_hash_value
internal-Safe (simple tag) arg h = release_simple-Safe tag arg
internal-Safe (interface_of is_pointer i) arg h = release_interface-Safe is_pointer i arg
internal-Safe (glist_of param) arg h =
    clears-Safe g_list_free arg _ refl (each-Safe _ (items arg) (λ e. internal-Safe param e h))
internal-Safe (gslist_of param) arg h =
    clears-Safe g_slist_free arg _ refl (each-Safe _ (items arg) (λ e. internal-Safe param e h))
internal-Safe (array_of c_array z fixed param) arg h =
    at_address (address arg) _
      (release_c_array-Safe z fixed param (g_type_info_get_tag param) _ arg (ground (arith, h)))
internal-Safe (array_of g_array z fixed param) arg h =
    at_address (address arg) _
      (release_g_array-Safe param (g_type_info_get_tag param) _ arg (λ e. internal-Safe param e h))
internal-Safe (array_of ptr_array z fixed param) arg h = at_address (address arg) _ (
    clears-Safe g_ptr_array_free arg _ refl
      (each_last-Safe _ (items arg) (λ e. internal-Safe param e h)))
internal-Safe (array_of byte_array z fixed param) arg h = Safe-clear g_byte_array_unref arg refl
internal-Safe (ghash_of key val) arg h = at_address (address arg) _ (
    clears-Safe g_hash_table_destroy arg _ refl (
      each_entry-Safe _ _ (entries arg) (λ e. internal-Safe key e (ground (arith, h)))
        λ e.
          Every-if (is_boxed_number (g_type_info_get_tag val)) (λ _. Safe-clear g_free e refl)
            (λ _. internal-Safe val e (ground (arith, h)))))

-- Releasing an in-argument after the call, where its type holds no C array of elements that need a
-- release: no reference of an object, an error, a parameter specification, a variant or a
-- fundamental instance is dropped, at any depth, since the caller only lent them.
pub gjs_g_argument_release_in_arg_lem :
    (ownership : Transfer) (type_info : TypeInfo) (arg : Argument)
    → has_no_pointer_array type_info ≡ true
    → Every (gjs_g_argument_release_in_arg ownership type_info arg) Keeps
unfolding gjs_g_argument_release_in_arg
gjs_g_argument_release_in_arg_lem ownership type_info arg h =
    Every-if (not (is_transfer_nothing ownership)) (λ _. Safe-done)
      λ _.
        Every-if (type_needs_release type_info) (λ _. internal-Safe type_info arg h)
          (λ _. Safe-done)
