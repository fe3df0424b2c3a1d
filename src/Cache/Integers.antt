-- ===== src/Cache/Integers.antt =====
-- The marshallers of integers and of flags (gjs_marshal_integer_in_in and gjs_marshal_flags_in_in of
-- gi/arg-cache.cpp) and the accessors of a
-- GIArgument that the first shares with the lengths of arrays (gi/arg-inl.h). What the engine makes of a
-- value (JS::ToUint32, JS::ToInt32) is a parameter.
use Prim.Native.Nat.{bit_and}
use cjs.Prelude.{
  ℕ, ◌+◌, ◌-◌, ◌%◌, ◌^◌, Bool, true, false, Option, none, some, if◌then◌else◌, ◌&&◌, not, ltb,
  String, ◌==◌,
}
use cjs.Prelude.Int.{ℤ, pos, negsuc, ltb_ℤ}
use cjs.Gi.{TypeTag}
use cjs.Cache.Defs.{ArgumentCache, Contents, u32, signed32}

-- The union GIArgument, by the member that was written last and its bits.
pub data GiArgument : Type 0 where
  v_int8 v_uint8 v_int16 v_uint16 v_int32 v_uint32 v_int64 v_uint64 : (bits : ℕ) → GiArgument

-- Bits in two's complement, where `half` is 2 to the width of the type less one.
abbrev pub signed_bits : (half : ℕ) → ℕ → ℤ
signed_bits half bits = if ltb bits half then pos bits else negsuc (half + half - bits - 1)

-- A number as a size_t.
abbrev pub size_t : ℤ → ℕ
size_t (pos n) = n % 2 ^ 64
size_t (negsuc n) = 2 ^ 64 - 1 - n % 2 ^ 64

-- gjs_arg_get<T>, T by its tag; `none` where another member was written last, or for a tag that the
-- accessors of array lengths do not know.
unfoldable pub gjs_arg_get : TypeTag → GiArgument → Option ℤ
gjs_arg_get TypeTag.int8 (v_int8 bits) = some (signed_bits (2 ^ 7) bits)
gjs_arg_get TypeTag.uint8 (v_uint8 bits) = some (pos bits)
gjs_arg_get TypeTag.int16 (v_int16 bits) = some (signed_bits (2 ^ 15) bits)
gjs_arg_get TypeTag.uint16 (v_uint16 bits) = some (pos bits)
gjs_arg_get TypeTag.int32 (v_int32 bits) = some (signed_bits (2 ^ 31) bits)
gjs_arg_get TypeTag.uint32 (v_uint32 bits) = some (pos bits)
gjs_arg_get TypeTag.int64 (v_int64 bits) = some (signed_bits (2 ^ 63) bits)
gjs_arg_get TypeTag.uint64 (v_uint64 bits) = some (pos bits)
gjs_arg_get _ _ = none

unfoldable pub gjs_g_argument_get_array_length : TypeTag → GiArgument → Option ℕ
unfolding gjs_arg_get
gjs_g_argument_get_array_length tag arg = elim (gjs_arg_get tag arg) [
  | none ↦ none
  | some value ↦ some (size_t value)
]

-- `none` is the assertion.
unfoldable pub gjs_g_argument_set_array_length : TypeTag → (value : ℕ) → Option GiArgument
gjs_g_argument_set_array_length TypeTag.int8 value = some (v_int8 (value % 2 ^ 8))
gjs_g_argument_set_array_length TypeTag.uint8 value = some (v_uint8 (value % 2 ^ 8))
gjs_g_argument_set_array_length TypeTag.int16 value = some (v_int16 (value % 2 ^ 16))
gjs_g_argument_set_array_length TypeTag.uint16 value = some (v_uint16 (value % 2 ^ 16))
gjs_g_argument_set_array_length TypeTag.int32 value = some (v_int32 (value % 2 ^ 32))
gjs_g_argument_set_array_length TypeTag.uint32 value = some (v_uint32 (value % 2 ^ 32))
gjs_g_argument_set_array_length TypeTag.int64 value = some (v_int64 (value % 2 ^ 64))
gjs_g_argument_set_array_length TypeTag.uint64 value = some (v_uint64 (value % 2 ^ 64))
gjs_g_argument_set_array_length _ value = none

-- The table, by the tag whose row it is; `none` is past its end.
unfoldable pub min_max_ints : TypeTag → Option (ℤ × ℤ)
min_max_ints TypeTag.int8 = some (negsuc 127, pos 127)
min_max_ints TypeTag.uint8 = some (pos 0, pos 255)
min_max_ints TypeTag.int16 = some (negsuc 32767, pos 32767)
min_max_ints TypeTag.uint16 = some (pos 0, pos 65535)
min_max_ints TypeTag.int32 = some (negsuc 2147483647, pos 2147483647)
min_max_ints _ = none

-- `number` is an int32_t, also where the caller has a uint32_t.
unfoldable pub value_in_range : (number : ℤ) → TypeTag → Option Bool
unfolding min_max_ints
value_in_range number tag = elim (min_max_ints tag) [
  | none ↦ none
  | some (least, greatest) ↦ some (not (ltb_ℤ number least) && not (ltb_ℤ greatest number))
]

pub data Marshalled : Type 0 where
  undefined : Marshalled
  failed : Marshalled
  out_of_range : (arg_name : String) → TypeTag → Marshalled
  stored : GiArgument → Marshalled

unfoldable pub store_in_range :
    (arg_name : String) → TypeTag → (int32 : ℤ) → (value : ℕ) → Marshalled
unfolding value_in_range gjs_g_argument_set_array_length
store_in_range arg_name tag int32 value = elim (value_in_range int32 tag) [
  | none ↦ undefined
  | some false ↦ out_of_range arg_name tag
  | some true ↦ elim (gjs_g_argument_set_array_length tag value) [
    | none ↦ undefined
    | some arg ↦ stored arg
  ]
]

module _ {Value : Type 0} (to_uint32 : Value → Option ℕ) (to_int32 : Value → Option ℤ) where
  unfoldable pub gjs_marshal_integer_in_in : ArgumentCache → Value → Marshalled
  unfolding store_in_range
  gjs_marshal_integer_in_in self value = elim self.contents [
    | Contents.number tag ↦
        if self.is_unsigned
        then elim (to_uint32 value) [
          | none ↦ failed
          | some number ↦ store_in_range self.arg_name tag (signed32 (u32 (pos number))) number
        ]
        else elim (to_int32 value) [
          | none ↦ failed
          | some number ↦ store_in_range self.arg_name tag number (size_t number)
        ]
    | _ ↦ undefined
  ]

-- The flags that are stored in the argument, or `none` for the exception. The last argument is what
-- JS::ToInt64 made of the value.
unfoldable pub flags_in_in : Contents → ℤ → Option ℤ
flags_in_in (Contents.flags_mask mask) number =
    if bit_and (size_t number) mask == size_t number
    then some (signed32 (size_t number % 2 ^ 32))
    else none
flags_in_in _ number = none
