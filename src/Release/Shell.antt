-- ===== src/Release/Shell.antt =====
-- Releasing a container whose elements are kept (gi/arg.cpp).
use cjs.Prelude.{ℕ, ◌≡◌, refl, Bool, true, false, Option, none, some, List, [], ◌∷◌, ◌||◌, arith}
use cjs.Gi.{Transfer}
use cjs.Release.{
  TypeInfo, simple, interface_of, array_of, c_array, g_array, ptr_array, byte_array, ArrayType,
  Argument, address, Free, g_type_info_get_tag, clear,
}
use cjs.Release.Needs.{is_string, is_number, is_gvalue_flat_array}
use cjs.Release.Internal.{
  transfer, release_list, release_c_array, release_flat_array, release_g_array, release_ptr_array,
  release_hash, gjs_g_arg_release_internal, is_embedded, holds_pointers,
}
use cjs.Release.Entry.{gjs_g_argument_release}
use cjs.Release.Owned.{
  Holds, a_list, no_list, an_slist, no_slist, no_array, flat_array, string_array, number_array,
  pointer_array, number_g_array, pointer_g_array, a_ptr_array, a_byte_array, a_hash, no_hash,
  number, string, no_string, an_error, no_error, an_enum, instance_of, no_instance, foreign_of,
}
use cjs.Release.Cases.{Frees, Frees-if}
use cjs.Release.Arrays.{own-parts, number-string}

abbrev pub is_a_container : TypeInfo → Bool
is_a_container (simple _) = false
is_a_container (interface_of _ _) = false
is_a_container _ = true

abbrev pub shell : Argument → List ℕ
shell arg = elim (address arg) [ none ↦ [] | some id ↦ id ∷ [] ]

no_array-shell :
    (kind : ArrayType) (z : Bool) (fixed : Option ℕ) (param : TypeInfo)
    → Frees
        (gjs_g_arg_release_internal
          (array_of kind z fixed param)
          (transfer Transfer.container)
          Argument.null)
        []
unfolding gjs_g_arg_release_internal clear
no_array-shell c_array z fixed param = ([], refl, refl)
no_array-shell g_array z fixed param = ([], refl, refl)
no_array-shell ptr_array z fixed param = ([], refl, refl)
no_array-shell byte_array z fixed param = ([], refl, refl)

-- Releasing a container whose elements C keeps, where it has the shape of its type: it succeeds and
-- frees the container alone, or nothing if there is none.
pub gjs_g_argument_release-container :
    (type_info : TypeInfo) (arg : Argument)
    → is_a_container type_info ≡ true
    → Holds type_info arg
    → Frees (gjs_g_argument_release Transfer.container type_info arg) (shell arg)
unfolding gjs_g_argument_release gjs_g_arg_release_internal release_list release_c_array
    release_flat_array release_g_array release_ptr_array release_hash clear is_gvalue_flat_array
gjs_g_argument_release-container _ _ h (number tag n e) = absurd (ground arith)
gjs_g_argument_release-container _ _ h (string tag id e) = absurd (ground arith)
gjs_g_argument_release-container _ _ h (no_string tag e) = absurd (ground arith)
gjs_g_argument_release-container _ _ h (an_error id) = absurd (ground arith)
gjs_g_argument_release-container _ _ h no_error = absurd (ground arith)
gjs_g_argument_release-container _ _ h (an_enum p i n e) = absurd (ground arith)
gjs_g_argument_release-container _ _ h (instance_of p i id kind a b c) = absurd (ground arith)
gjs_g_argument_release-container _ _ h (no_instance p i a) = absurd (ground arith)
gjs_g_argument_release-container _ _ h (foreign_of p i id kind a b) = absurd (ground arith)
gjs_g_argument_release-container _ _ h (a_list param id elements e) =
    ((Free.g_list_free, id) ∷ [], refl, refl)
gjs_g_argument_release-container _ _ h (no_list param) = ([], refl, refl)
gjs_g_argument_release-container _ _ h (an_slist param id elements e) =
    ((Free.g_slist_free, id) ∷ [], refl, refl)
gjs_g_argument_release-container _ _ h (no_slist param) = ([], refl, refl)
gjs_g_argument_release-container _ _ h (no_array kind z fixed param) =
    no_array-shell kind z fixed param
gjs_g_argument_release-container _ _ h (flat_array z param id elements flat shaped) =
    Frees-if (is_gvalue_flat_array param) (λ _. ((Free.g_free, id) ∷ [], refl, refl))
      (λ bad. absurd (ground (arith, flat, bad)))
gjs_g_argument_release-container _ _ h (string_array z fixed tag id elements e shaped) =
    Frees-if (is_string tag) (λ _. ((Free.g_free, id) ∷ [], refl, refl))
      (λ bad. absurd (ground (arith, e, bad)))
gjs_g_argument_release-container _ _ h (number_array z fixed tag id elements e shaped) =
    Frees-if (is_string tag) (λ bad. absurd (number-string tag e bad))
      λ _.
        Frees-if (is_number tag || false) (λ _. ((Free.g_free, id) ∷ [], refl, refl))
          (λ bad. absurd (ground (arith, e, bad)))
gjs_g_argument_release-container _ _ h (pointer_array z fixed param id elements own full size e) =
    let (flat, text, numeric, embedded, holds, _) = own-parts param own in
    Frees-if (is_gvalue_flat_array param) (λ bad. absurd (ground (arith, flat, bad)))
      λ _.
        Frees-if (is_string (g_type_info_get_tag param)) (λ bad. absurd (ground (arith, text, bad)))
          λ _.
            Frees-if (is_number (g_type_info_get_tag param) || is_embedded param)
              (λ bad. absurd (ground (arith, numeric, embedded, bad)))
              λ _.
                Frees-if (holds_pointers (g_type_info_get_tag param))
                  (λ _. ((Free.g_free, id) ∷ [], refl, refl))
                  (λ bad. absurd (ground (arith, holds, bad)))
gjs_g_argument_release-container _ _ h (number_g_array z fixed tag id elements e shaped) =
    Frees-if (is_number tag) (λ _. ((Free.g_array_unref, id) ∷ [], refl, refl))
      (λ bad. absurd (ground (arith, e, bad)))
gjs_g_argument_release-container _ _ h (pointer_g_array z fixed param id elements n p needs e) =
    Frees-if (is_number (g_type_info_get_tag param)) (λ bad. absurd (ground (arith, n, bad)))
      λ _.
        Frees-if
          (is_string (g_type_info_get_tag param) || holds_pointers (g_type_info_get_tag param))
          (λ _. ((Free.g_array_unref, id) ∷ [], refl, refl))
          (λ bad. absurd (ground (arith, p, bad)))
gjs_g_argument_release-container _ _ h (a_ptr_array z fixed param id elements e) =
    ((Free.g_ptr_array_free, id) ∷ [], refl, refl)
gjs_g_argument_release-container _ _ h (a_byte_array z fixed param id) =
    ((Free.g_byte_array_unref, id) ∷ [], refl, refl)
gjs_g_argument_release-container _ _ h (a_hash key val id pairs e) =
    ((Free.g_hash_table_destroy, id) ∷ [], refl, refl)
gjs_g_argument_release-container _ _ h (no_hash key val) = ([], refl, refl)
