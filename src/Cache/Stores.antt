-- ===== src/Cache/Stores.antt =====
-- The marshaller of integers, with the cache that gjs_arg_cache_build_normal_in_arg makes for it
-- (gi/arg-cache.cpp).
use mathlib.Core.Option.{some-injective}
use mathlib.Core.Path.{subst}
use cjs.Prelude.{
  ℕ, ◌^◌, ◌<◌, ◌≡◌, ◌⊎◌, ◌↔◌, inl, inr, refl, true, false, Option, none, some, arith, Bool-cases,
  Option-cases, String, not, ◌&&◌,
}
use cjs.Prelude.Int.{ℤ, pos, ltb_ℤ, ◌≤ℤ◌}
use cjs.Gi.{TypeTag, TypeInfo, TypeSystem}
use cjs.Cache.Defs.{ArgumentCache, Contents, u32, signed32, ok}
use cjs.Cache.Bounds.{InInt32}
use cjs.Cache.Marshallers.{Marshallers}
use cjs.Cache.Tables.{ok-injective}
use cjs.Cache.Interface.{build_normal_in_arg}
use cjs.Cache.Ranges.{Format, signed, unsigned, InFormat}
use cjs.Cache.Integers.{
  GiArgument, gjs_arg_get, gjs_g_argument_set_array_length, min_max_ints, value_in_range,
  Marshalled, failed, out_of_range, stored, store_in_range, gjs_marshal_integer_in_in, size_t,
}

-- What becomes of an argument, by the number that the engine makes of the value: nothing without a
-- number, an error for a number that the type of the argument does not have, and otherwise an
-- argument from which the callee reads that number.
pub data Marshals (arg_name : String) (tag : TypeTag) (f : Format)
    : Option ℤ → Marshalled → Type 0 where
  fails : Marshals arg_name tag f none failed
  rejects : (n : ℤ) → ¬ InFormat f n → Marshals arg_name tag f (some n) (out_of_range arg_name tag)
  stores :
      (n : ℤ) (arg : GiArgument)
      → InFormat f n
      → gjs_arg_get tag arg ≡ some n
      → Marshals arg_name tag f (some n) (stored arg)

store_in_range-Marshals :
    (arg_name : String) (tag : TypeTag) (f : Format) (n int32 : ℤ) (value : ℕ)
    → (least greatest : ℤ) (arg : GiArgument) → min_max_ints tag ≡ some (least, greatest)
    → gjs_g_argument_set_array_length tag value ≡ some arg
    → InFormat f n ↔ ((least ≤ℤ int32) × (int32 ≤ℤ greatest))
    → (InFormat f n → gjs_arg_get tag arg ≡ some n)
    → Marshals arg_name tag f (some n) (store_in_range arg_name tag int32 value)
unfolding store_in_range value_in_range
store_in_range-Marshals arg_name tag f n int32 value least greatest arg row set fits reads =
    elim (Bool-cases (not (ltb_ℤ int32 least) && not (ltb_ℤ greatest int32))) [
      | inl e ↦
          let h : InFormat f n = fits.1 (in_bounds e) in
          rw (store_in_range, value_in_range, row, e, set) (stores n arg h (reads h))
      | inr e ↦
          rw (store_in_range, value_in_range, row, e) (rejects n (λ h. out_of_bounds e (fits.0 h)))
    ]
  where
    in_bounds :
        (not (ltb_ℤ int32 least) && not (ltb_ℤ greatest int32)) ≡ true
        → (least ≤ℤ int32) × (int32 ≤ℤ greatest)
    in_bounds e = ground (arith, e)

    out_of_bounds :
        (not (ltb_ℤ int32 least) && not (ltb_ℤ greatest int32)) ≡ false
        → ¬ ((least ≤ℤ int32) × (int32 ≤ℤ greatest))
    out_of_bounds e h = ground (arith, e, h)

signed-Marshals :
    (arg_name : String) (tag : TypeTag) (half : ℕ) (n : ℤ)
    → (tag ≡ TypeTag.int8) × (half ≡ 2 ^ 7)
      ⊎ ((tag ≡ TypeTag.int16) × (half ≡ 2 ^ 15) ⊎ (tag ≡ TypeTag.int32) × (half ≡ 2 ^ 31))
    → InInt32 n
    → Marshals arg_name tag (signed half) (some n) (store_in_range arg_name tag n (size_t n))
unfolding min_max_ints gjs_g_argument_set_array_length gjs_arg_get
signed-Marshals arg_name tag half n case h = elim case [
  | inl (t, w) ↦
      rw (t, w)
        (store_in_range-Marshals arg_name TypeTag.int8 (signed (2 ^ 7)) n n (size_t n) _ _ _ refl
          refl (ground (arith, h)) (λ fits. ground (arith, fits)))
  | inr (inl (t, w)) ↦
      rw (t, w)
        (store_in_range-Marshals arg_name TypeTag.int16 (signed (2 ^ 15)) n n (size_t n) _ _ _ refl
          refl (ground (arith, h)) (λ fits. ground (arith, fits)))
  | inr (inr (t, w)) ↦
      rw (t, w)
        (store_in_range-Marshals arg_name TypeTag.int32 (signed (2 ^ 31)) n n (size_t n) _ _ _ refl
          refl (ground (arith, h)) (λ fits. ground (arith, fits)))
]

unsigned-Marshals :
    (arg_name : String) (tag : TypeTag) (limit : ℕ) (n : ℕ)
    → (tag ≡ TypeTag.uint8) × (limit ≡ 2 ^ 8) ⊎ (tag ≡ TypeTag.uint16) × (limit ≡ 2 ^ 16)
    → n < 2 ^ 32
    → Marshals arg_name tag
        (unsigned limit)
        (some (pos n))
        (store_in_range arg_name tag (signed32 (u32 (pos n))) n)
unfolding min_max_ints gjs_g_argument_set_array_length gjs_arg_get
unsigned-Marshals arg_name tag limit n case h = elim case [
  | inl (t, w) ↦
      rw (t, w)
        (store_in_range-Marshals arg_name TypeTag.uint8 (unsigned (2 ^ 8)) (pos n)
          (signed32 (u32 (pos n))) n _ _ _ refl refl (ground (arith, h))
          (λ fits. ground (arith, fits)))
  | inr (t, w) ↦
      rw (t, w)
        (store_in_range-Marshals arg_name TypeTag.uint16 (unsigned (2 ^ 16)) (pos n)
          (signed32 (u32 (pos n))) n _ _ _ refl refl (ground (arith, h))
          (λ fits. ground (arith, fits)))
]

-- The types that have this marshaller.
unfoldable pub small_format : TypeTag → Option Format
small_format TypeTag.int8 = some (signed (2 ^ 7))
small_format TypeTag.uint8 = some (unsigned (2 ^ 8))
small_format TypeTag.int16 = some (signed (2 ^ 15))
small_format TypeTag.uint16 = some (unsigned (2 ^ 16))
small_format TypeTag.int32 = some (signed (2 ^ 31))
small_format _ = none

module _ {Value : Type 0} (to_uint32 : Value → Option ℕ) (to_int32 : Value → Option ℤ)
    (uint32_range : (v : Value) (n : ℕ) → to_uint32 v ≡ some n → n < 2 ^ 32)
    (int32_range : (v : Value) (n : ℤ) → to_int32 v ≡ some n → InInt32 n) where
  -- The number of a value: the engine reads it as unsigned for an unsigned type.
  abbrev pub number_of : Format → Value → Option ℤ
  number_of (signed half) value = to_int32 value
  number_of (unsigned limit) value = elim (to_uint32 value) [ none ↦ none | some n ↦ some (pos n) ]

  signed_case :
      (self : ArgumentCache) (value : Value) (tag : TypeTag) (half : ℕ)
      → (tag ≡ TypeTag.int8) × (half ≡ 2 ^ 7)
        ⊎ ((tag ≡ TypeTag.int16) × (half ≡ 2 ^ 15) ⊎ (tag ≡ TypeTag.int32) × (half ≡ 2 ^ 31))
      → Marshals self.arg_name tag (signed half) (to_int32 value) (
          gjs_marshal_integer_in_in to_uint32 to_int32
            (record self { contents = Contents.number tag; is_unsigned = false })
            value)
  unfolding gjs_marshal_integer_in_in
  signed_case self value tag half case = elim (Option-cases (to_int32 value)) [
    | inl e ↦ rw (gjs_marshal_integer_in_in, e) fails
    | inr (n, e) ↦
        rw (gjs_marshal_integer_in_in, e)
          (signed-Marshals self.arg_name tag half n case (int32_range value n e))
  ]

  unsigned_case :
      (self : ArgumentCache) (value : Value) (tag : TypeTag) (limit : ℕ)
      → (tag ≡ TypeTag.uint8) × (limit ≡ 2 ^ 8) ⊎ (tag ≡ TypeTag.uint16) × (limit ≡ 2 ^ 16)
      → Marshals self.arg_name tag (unsigned limit) (number_of (unsigned limit) value) (
          gjs_marshal_integer_in_in to_uint32 to_int32
            (record self { contents = Contents.number tag; is_unsigned = true })
            value)
  unfolding gjs_marshal_integer_in_in
  unsigned_case self value tag limit case = elim (Option-cases (to_uint32 value)) [
    | inl e ↦ rw (gjs_marshal_integer_in_in, number_of, e) fails
    | inr (n, e) ↦
        rw (gjs_marshal_integer_in_in, number_of, e)
          (unsigned-Marshals self.arg_name tag limit n case (uint32_range value n e))
  ]

  abbrev as_integer : ArgumentCache → ArgumentCache
  as_integer self = record self { marshallers = some Marshallers.integer_in }

  given :
      (value : Value) (tag : TypeTag) (f g : Format) (built cache : ArgumentCache)
      → some f ≡ some g
      → ok built ≡ ok cache
      → Marshals built.arg_name tag f
          (number_of f value)
          (gjs_marshal_integer_in_in to_uint32 to_int32 built value)
      → Marshals cache.arg_name tag g
          (number_of g value)
          (gjs_marshal_integer_in_in to_uint32 to_int32 cache value)
  given value tag f g built cache p q m =
      subst
        (λ (c : ArgumentCache).
          Marshals c.arg_name tag g (number_of g value)
            (gjs_marshal_integer_in_in to_uint32 to_int32 c value))
        (ok-injective q)
        (subst
          (λ h.
            Marshals built.arg_name tag h (number_of h value)
              (gjs_marshal_integer_in_in to_uint32 to_int32 built value))
          (some-injective _ _ p) m)

  -- If the engine's readings are of 32 bits, the marshaller of an integer argument of at most 32
  -- bits, with the cache that is built for its type, stores exactly the numbers of that type, and the
  -- callee reads each as it was. Any other number is an error, and so is a value without a number.
  pub gjs_marshal_integer_in_in-Marshals :
      (types : TypeSystem) (self cache : ArgumentCache) (info : TypeInfo) (tag : TypeTag)
      (f : Format) (value : Value)
      → small_format tag ≡ some f
      → build_normal_in_arg types self info tag ≡ ok cache
      → Marshals cache.arg_name tag f
          (number_of f value)
          (gjs_marshal_integer_in_in to_uint32 to_int32 cache value)
  unfolding small_format build_normal_in_arg
  gjs_marshal_integer_in_in-Marshals types self cache info TypeTag.int8 f value small built =
      given value TypeTag.int8 _ f _ cache small built
        (signed_case (as_integer self) value TypeTag.int8 _ (inl (refl, refl)))
  gjs_marshal_integer_in_in-Marshals types self cache info TypeTag.int16 f value small built =
      given value TypeTag.int16 _ f _ cache small built
        (signed_case (as_integer self) value TypeTag.int16 _ (inr (inl (refl, refl))))
  gjs_marshal_integer_in_in-Marshals types self cache info TypeTag.int32 f value small built =
      given value TypeTag.int32 _ f _ cache small built
        (signed_case (as_integer self) value TypeTag.int32 _ (inr (inr (refl, refl))))
  gjs_marshal_integer_in_in-Marshals types self cache info TypeTag.uint8 f value small built =
      given value TypeTag.uint8 _ f _ cache small built
        (unsigned_case (as_integer self) value TypeTag.uint8 _ (inl (refl, refl)))
  gjs_marshal_integer_in_in-Marshals types self cache info TypeTag.uint16 f value small built =
      given value TypeTag.uint16 _ f _ cache small built
        (unsigned_case (as_integer self) value TypeTag.uint16 _ (inr (refl, refl)))
  gjs_marshal_integer_in_in-Marshals types self cache info _ f value small built =
      absurd (ground arith)
