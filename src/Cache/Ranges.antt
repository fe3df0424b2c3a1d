-- ===== src/Cache/Ranges.antt =====
-- Which numbers fit an integer argument, and that they are read back as they were stored
-- (gjs_marshal_integer_in_in and the accessors of array lengths of gi/arg-cache.cpp).
use mathlib.Core.Option.{some-injective}
use cjs.Prelude.{ℕ, ◌+◌, ◌^◌, ◌<◌, ◌≤◌, ◌≡◌, ◌⊎◌, ◌↔◌, refl, Option, none, some, arith, sym}
use cjs.Prelude.Int.{ℤ, pos_part, neg_part}
use cjs.Gi.{TypeTag}
use cjs.Cache.Integers.{
  GiArgument, gjs_arg_get, gjs_g_argument_get_array_length, gjs_g_argument_set_array_length,
}

-- An integer type of C: two's complement of a width with `half` negative numbers, or that many bits.
pub data Format : Type 0 where
  signed : (half : ℕ) → Format
  unsigned : (limit : ℕ) → Format

abbrev pub InFormat : Format → ℤ → Type 0
InFormat (signed half) n = (pos_part n < half) × (neg_part n ≤ half)
InFormat (unsigned limit) n = (pos_part n < limit) × (neg_part n ≡ 0)

-- The formats of the integer types.
unfoldable pub format : TypeTag → Option Format
format TypeTag.int8 = some (signed (2 ^ 7))
format TypeTag.uint8 = some (unsigned (2 ^ 8))
format TypeTag.int16 = some (signed (2 ^ 15))
format TypeTag.uint16 = some (unsigned (2 ^ 16))
format TypeTag.int32 = some (signed (2 ^ 31))
format TypeTag.uint32 = some (unsigned (2 ^ 32))
format TypeTag.int64 = some (signed (2 ^ 63))
format TypeTag.uint64 = some (unsigned (2 ^ 64))
format _ = none

-- The lengths that a type keeps: for a signed type also those that are a negative number, as a
-- size_t.
abbrev pub KeepsLength : Format → ℕ → Type 0
KeepsLength (signed half) length = (length < half) ⊎ (2 ^ 64 ≤ length + half)
KeepsLength (unsigned limit) length = length < limit

format-injective : {f g : Format} → some f ≡ some g → f ≡ g
format-injective e = some-injective _ _ e

-- A size_t can be stored under any integer tag, and is read back as it was exactly if the type keeps
-- it: it is below the limit of the type or, for a signed type, is a negative number of it seen as a
-- size_t. A length that is larger is cut off without an error.
pub get-set_array_length :
    (tag : TypeTag) (f : Format) (length : ℕ)
    → format tag ≡ some f
    → length < 2 ^ 64
    → (arg : GiArgument) × (gjs_g_argument_set_array_length tag length ≡ some arg)
      × ((gjs_g_argument_get_array_length tag arg ≡ some length) ↔ KeepsLength f length)
unfolding format gjs_g_argument_set_array_length gjs_g_argument_get_array_length gjs_arg_get
get-set_array_length TypeTag.int8 f n e bound =
    rw (sym (format-injective e)) (_, refl, ground (arith, bound))
get-set_array_length TypeTag.uint8 f n e bound =
    rw (sym (format-injective e)) (_, refl, ground (arith, bound))
get-set_array_length TypeTag.int16 f n e bound =
    rw (sym (format-injective e)) (_, refl, ground (arith, bound))
get-set_array_length TypeTag.uint16 f n e bound =
    rw (sym (format-injective e)) (_, refl, ground (arith, bound))
get-set_array_length TypeTag.int32 f n e bound =
    rw (sym (format-injective e)) (_, refl, ground (arith, bound))
get-set_array_length TypeTag.uint32 f n e bound =
    rw (sym (format-injective e)) (_, refl, ground (arith, bound))
get-set_array_length TypeTag.int64 f n e bound =
    rw (sym (format-injective e)) (_, refl, ground (arith, bound))
get-set_array_length TypeTag.uint64 f n e bound =
    rw (sym (format-injective e)) (_, refl, ground (arith, bound))
get-set_array_length _ f n e bound = absurd (ground arith)
