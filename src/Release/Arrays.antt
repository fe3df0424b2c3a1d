-- ===== src/Release/Arrays.antt =====
-- The arrays of gjs_g_arg_release_internal (gi/arg.cpp).
use cjs.Prelude.{
  ℕ, ◌≡◌, refl, Bool, true, false, Option, some, [], ◌∷◌, ◌++◌, ◌⊎◌, ◌≢◌, inl, inr, ◌||◌, arith,
}
use cjs.Gi.{TypeTag}
use cjs.Release.{
  TypeInfo, simple, Argument, block, Arguments, Free, Outcome, clear, g_free, g_value_unset,
  g_strfreev, g_type_info_get_tag,
}
use cjs.Release.Needs.{is_string, is_number, is_gvalue_flat_array, type_needs_out_release}
use cjs.Release.Internal.{
  each, each_last, release_flat_array, release_elements, release_c_array, release_g_array,
  is_embedded, holds_pointers,
}
use cjs.Release.Owned.{
  addresses_all, count, a_word, a_pointer, an_instance, all_shaped, none_null, has_own_elements,
}
use cjs.Release.Cases.{
  Frees, Frees-and_then, Frees-if, everything, take_items-count, until_null-none, words,
  Frees-pointers, Frees-instances, all_shaped-none_null,
}

pub number-string : (tag : TypeTag) → is_number tag ≡ true → is_string tag ≢ true
number-string TypeTag.utf8 h = absurd (ground arith)
number-string TypeTag.filename h = absurd (ground arith)
number-string tag h = λ bad. absurd (ground (arith, bad))

pub own-parts :
    (param : TypeInfo)
    → has_own_elements param ≡ true
    → (is_gvalue_flat_array param ≡ false)
      × (is_string (g_type_info_get_tag param) ≡ false)
      × (is_number (g_type_info_get_tag param) ≡ false)
      × (is_embedded param ≡ false)
      × (holds_pointers (g_type_info_get_tag param) ≡ true)
      × (type_needs_out_release param ≡ true)
own-parts param own = (
  ground (arith, own),
  ground (arith, own),
  ground (arith, own),
  ground (arith, own),
  ground (arith, own),
  ground (arith, own),
)

elements-Frees :
    (zero_terminated : Bool) (fixed_size : Option ℕ) (release : Argument → Option Outcome) (id : ℕ)
    (elements : Arguments)
    → none_null elements ≡ true
    → (zero_terminated ≡ true) ⊎ ((zero_terminated ≡ false) × (fixed_size ≡ some (count elements)))
    → Frees (each release elements) (addresses_all elements)
    → Frees
        (release_elements zero_terminated fixed_size release (block id elements))
        (addresses_all elements)
elements-Frees zero_terminated fixed_size release id elements full (inl e) freed =
    rw (e, until_null-none elements full) freed
elements-Frees zero_terminated fixed_size release id elements full (inr (e, f)) freed =
    rw (e, f, take_items-count elements) freed

-- C arrays that hold no pointers of their own, or such that one function frees.
module _ (zero_terminated : Bool) (fixed_size : Option ℕ) (release : Argument → Option Outcome)
    (id : ℕ) (elements : Arguments) where
  pub Frees-flat_array :
      (param : TypeInfo) (tag : TypeTag)
      → is_gvalue_flat_array param ≡ true
      → fixed_size ≡ some (count elements)
      → all_shaped an_instance elements ≡ true
      → Frees
          (release_c_array zero_terminated fixed_size param tag release everything
            (block id elements))
          (addresses_all elements ++ id ∷ [])
  unfolding release_c_array release_flat_array clear
  Frees-flat_array param tag flat size shaped =
      Frees-if (is_gvalue_flat_array param)
        (λ _.
          rw (size, take_items-count elements)
            (Frees-and_then (Frees-instances g_value_unset elements shaped)
              ((g_free, id) ∷ [], refl, refl)))
        (λ bad. absurd (ground (arith, flat, bad)))

  pub Frees-string_array :
      (tag : TypeTag)
      → is_string tag ≡ true
      → all_shaped a_pointer elements ≡ true
      → Frees
          (release_c_array zero_terminated fixed_size
            (simple tag)
            tag
            release
            everything
            (block id elements))
          (addresses_all elements ++ id ∷ [])
  unfolding release_c_array is_gvalue_flat_array clear
  Frees-string_array tag string shaped =
      Frees-if (is_string tag)
        (λ _. rw (until_null-none elements (all_shaped-none_null elements shaped)) (
          Frees-and_then (Frees-pointers g_free elements shaped)
            ((g_strfreev, id) ∷ [], refl, refl)))
        (λ bad. absurd (ground (arith, string, bad)))

  pub Frees-number_array :
      (tag : TypeTag)
      → is_number tag ≡ true
      → all_shaped a_word elements ≡ true
      → Frees
          (release_c_array zero_terminated fixed_size
            (simple tag)
            tag
            release
            everything
            (block id elements))
          (addresses_all elements ++ id ∷ [])
  unfolding release_c_array is_gvalue_flat_array clear
  Frees-number_array tag number shaped = rw (words elements shaped) (
      Frees-if (is_string tag) (λ bad. absurd (number-string tag number bad))
        λ _.
          Frees-if (is_number tag || false) (λ _. ((g_free, id) ∷ [], refl, refl))
            (λ bad. absurd (ground (arith, number, bad))))

  -- A C array of pointers that are released one by one.
  pub Frees-pointer_array :
      (param : TypeInfo)
      → has_own_elements param ≡ true
      → none_null elements ≡ true
      → (zero_terminated ≡ true)
        ⊎ ((zero_terminated ≡ false) × (fixed_size ≡ some (count elements)))
      → Frees (each release elements) (addresses_all elements)
      → Frees
          (release_c_array zero_terminated fixed_size param
            (g_type_info_get_tag param)
            release
            everything
            (block id elements))
          (addresses_all elements ++ id ∷ [])
  unfolding release_c_array clear
  Frees-pointer_array param own full size freed =
      let (flat, string, number, embedded, holds, needs) = own-parts param own in
      rw (release_c_array, flat, string, number, embedded, holds, needs)
        (Frees-and_then
          (elements-Frees zero_terminated fixed_size release id elements full size freed)
          ((g_free, id) ∷ [], refl, refl))

  pub Frees-number_g_array :
      (tag : TypeTag)
      → is_number tag ≡ true
      → all_shaped a_word elements ≡ true
      → Frees
          (release_g_array (simple tag) tag release everything (block id elements))
          (addresses_all elements ++ id ∷ [])
  unfolding release_g_array clear
  Frees-number_g_array tag number shaped = rw (words elements shaped) (
      Frees-if (is_number tag) (λ _. ((Free.g_array_unref, id) ∷ [], refl, refl))
        (λ bad. absurd (ground (arith, number, bad))))

  pub Frees-pointer_g_array :
      (param : TypeInfo)
      → is_number (g_type_info_get_tag param) ≡ false
      → (is_string (g_type_info_get_tag param) || holds_pointers (g_type_info_get_tag param)) ≡ true
      → type_needs_out_release param ≡ true
      → Frees (each_last release elements) (addresses_all elements)
      → Frees
          (release_g_array param (g_type_info_get_tag param) release everything (block id elements))
          (addresses_all elements ++ id ∷ [])
  unfolding release_g_array clear
  Frees-pointer_g_array param number pointers needs freed =
      rw (release_g_array, number, pointers, needs)
        (Frees-and_then freed ((Free.g_array_free, id) ∷ [], refl, refl))
