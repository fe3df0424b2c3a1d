-- ===== src/Cache/Examples.antt =====
-- Runs of the builders of gi/arg-cache.cpp for concrete arguments.
use cjs.Prelude.{
  ℕ, zero, suc, ◌≡◌, refl, Bool, true, false, some, List, [], ◌∷◌, ◌||◌, ◌&&◌, not, arith, inl,
  get_elem?, length, Option, ◌%◌, ◌^◌, ◌<◌, ◌↔◌,
}
use cjs.Prelude.Int.{ℤ, pos, negsuc, ◌≤ℤ◌}
use cjs.Gi.{TypeTag, InfoType, input, InterfaceInfo}
use cjs.Gi.Samples.{no_types, no_interface, int_arg, array_arg, sum_info}
use cjs.Cache.Marshallers.{Marshallers}
use cjs.Cache.Defs.{
  ArgumentCache, Contents, new0, Result, ok, set_arg_pos, array_pos, build_enum_bounds, min_value,
  max_value, enum_in_in, signed32, u32, or_values, build_flags_mask,
}
use cjs.Prelude.Bits.{bit_at}
use cjs.Cache.Bounds.{InInt32, Member}
use cjs.Cache.Flags.{flags_in_in-declared, flags_in_in-bits}
use cjs.Cache.Build.{
  is_input, is_output, setup, build_c_array, build_sized, build_by_kind, build_arg,
}
use cjs.Cache.Interface.{build_normal_in_arg}
use cjs.Cache.Tables.{IsInArg, build_normal_in_arg-IsInArg}
use cjs.Cache.Writes.{sum_to}
use cjs.Cache.Effect.{takes, gives, bit, IsForward}
use cjs.Cache.Kinds.{build_arg_lem}
use cjs.Cache.Integers.{
  gjs_marshal_integer_in_in, store_in_range, value_in_range, min_max_ints, stored, v_int8,
  GiArgument, gjs_g_argument_set_array_length, gjs_g_argument_get_array_length, flags_in_in,
}
use cjs.Cache.Ranges.{format, signed, unsigned, get-set_array_length}
use cjs.Cache.Stores.{Marshals, small_format, gjs_marshal_integer_in_in-Marshals}
use cjs.Cache.Enums.{enum_in_in-declared, enum_in_in-between}

array_arg-IsForward : IsForward 0 array_arg
array_arg-IsForward = record {
  closure_behind = λ e f. tt;
  destroy_behind = λ e f. tt;
  length_behind = λ e. omega arith;
}

unfoldable new_caches : List ArgumentCache
new_caches = new0 ∷ new0 ∷ []

abbrev caches_of : Result (List ArgumentCache × Bool) → List ArgumentCache
caches_of (ok (ys, inc)) = ys
caches_of _ = []

unfoldable array_caches : List ArgumentCache
unfolding build_arg setup set_arg_pos build_by_kind build_sized build_c_array array_pos
array_caches = caches_of (build_arg no_types sum_info array_arg 0 new_caches)

array_caches-built : build_arg no_types sum_info array_arg 0 new_caches ≡ ok (array_caches, true)
unfolding build_arg setup set_arg_pos build_by_kind build_sized build_c_array array_pos array_caches
    new_caches new0
array_caches-built = refl

new_caches-first : get_elem? new_caches 0 ≡ some new0
unfolding new_caches
new_caches-first = refl

new0-plain : (new0.skip_in || new0.skip_out) ≡ false
unfolding new0
new0-plain = refl

build_arg_lem_example :
    (length array_caches ≡ length new_caches)
    × (sum_to takes 0 array_caches ≡ sum_to takes 0 new_caches)
    × (sum_to gives 0 array_caches ≡ sum_to gives 0 new_caches)
    × ((c : ArgumentCache) × (get_elem? array_caches 0 ≡ some c)
        × (takes c ≡ bit (true && not (is_output input)))
        × (gives c ≡ bit (true && not (is_input input))))
build_arg_lem_example =
    build_arg_lem no_types sum_info array_arg 0 new_caches array_caches new0 true new_caches-first
      new0-plain array_arg-IsForward array_caches-built

abbrev int_cache : ArgumentCache
int_cache = record new0 {
  marshallers = some Marshallers.integer_in;
  contents = Contents.number TypeTag.int32;
  is_unsigned = false;
}

int_cache-built : build_normal_in_arg no_types new0 int_arg.type_info TypeTag.int32 ≡ ok int_cache
unfolding build_normal_in_arg new0
int_cache-built = refl

build_normal_in_arg-IsInArg_example : IsInArg new0 int_cache
build_normal_in_arg-IsInArg_example =
    build_normal_in_arg-IsInArg no_types new0 int_cache int_arg.type_info TypeTag.int32
      int_cache-built

-- An enum with the values -1 and 4.
abbrev signs : InterfaceInfo
signs = record no_interface { info_type = InfoType.enum; values = negsuc 0 ∷ pos 4 ∷ [] }

signs-Int32 : (i : ℕ) (v : ℤ) → get_elem? signs.values i ≡ some v → InInt32 v
signs-Int32 zero v e = ground arith
signs-Int32 (suc zero) v e = ground arith
signs-Int32 (suc (suc i)) v e = absurd (ground arith)

enum_in_in-declared_example :
    enum_in_in
      (build_enum_bounds new0 signs).is_unsigned
      (build_enum_bounds new0 signs).contents
      (pos 4)
    ≡ some (pos 4)
enum_in_in-declared_example =
    enum_in_in-declared signs.values 1 (pos 4) refl (inl signs-Int32) new0 signs refl

signs-accepts :
    enum_in_in
      (build_enum_bounds new0 signs).is_unsigned
      (build_enum_bounds new0 signs).contents
      (pos 2)
    ≡ some (pos 2)
unfolding enum_in_in build_enum_bounds min_value max_value
signs-accepts = refl

enum_in_in-between_example :
    (pos 2 ≡ pos 2)
    × ((a b : ℤ) × (j k : ℕ) × (get_elem? signs.values j ≡ some a)
        × (get_elem? signs.values k ≡ some b)
        × (a ≤ℤ pos 2)
        × (pos 2 ≤ℤ b))
enum_in_in-between_example =
    enum_in_in-between signs.values 1 (pos 4) refl (inl signs-Int32) new0 signs (pos 2) (pos 2) refl
      signs-accepts

abbrev word_of : ℕ → Option ℕ
word_of n = some (n % 2 ^ 32)

abbrev int_of : ℕ → Option ℤ
int_of n = some (signed32 (n % 2 ^ 32))

word_of-range : (v n : ℕ) → word_of v ≡ some n → n < 2 ^ 32
word_of-range v n e = ground (arith, e)

int_of-range : (v : ℕ) (n : ℤ) → int_of v ≡ some n → InInt32 n
int_of-range v n e = ground (arith, e)

abbrev byte_cache : ArgumentCache
byte_cache = record new0 {
  contents = Contents.number TypeTag.int8;
  is_unsigned = false;
  marshallers = some Marshallers.integer_in;
}

-- 4294967200 is -96 as an int32_t.
gjs_marshal_integer_in_in-Marshals_example :
    Marshals new0.arg_name TypeTag.int8
      (signed (2 ^ 7))
      (some (negsuc 95))
      (gjs_marshal_integer_in_in word_of int_of byte_cache 4294967200)
unfolding new0 small_format build_normal_in_arg
gjs_marshal_integer_in_in-Marshals_example =
    gjs_marshal_integer_in_in-Marshals word_of int_of word_of-range int_of-range no_types new0
      byte_cache int_arg.type_info TypeTag.int8 (signed (2 ^ 7)) 4294967200 refl refl

byte_stored : gjs_marshal_integer_in_in word_of int_of byte_cache 4294967200 ≡ stored (v_int8 160)
unfolding new0 gjs_marshal_integer_in_in store_in_range value_in_range min_max_ints
    gjs_g_argument_set_array_length
byte_stored = refl

get-set_array_length_example :
    (arg : GiArgument) × (gjs_g_argument_set_array_length TypeTag.uint8 300 ≡ some arg)
    × ((gjs_g_argument_get_array_length TypeTag.uint8 arg ≡ some 300) ↔ (300 < 256))
unfolding format
get-set_array_length_example =
    get-set_array_length TypeTag.uint8 (unsigned 256) 300 refl (omega arith)

abbrev five_flags : InterfaceInfo
five_flags = record no_interface { values = pos 1 ∷ pos 4 ∷ [] }

-- 2147483648 is the flag of the highest bit.
abbrev high_flags : InterfaceInfo
high_flags = record no_interface { values = pos 1 ∷ pos 2147483648 ∷ [] }

self_declared : (v : ℤ) → Member v high_flags.values → Member v high_flags.values
self_declared v m = m

flags_in_in-declared_example :
    flags_in_in (build_flags_mask new0 high_flags).contents (pos (or_values 0 high_flags.values))
    ≡ some (signed32 (or_values 0 high_flags.values))
flags_in_in-declared_example = flags_in_in-declared new0 high_flags high_flags.values self_declared

both_accepted : flags_in_in (build_flags_mask new0 five_flags).contents (pos 5) ≡ some (pos 5)
unfolding flags_in_in build_flags_mask or_values
both_accepted = refl

flags_in_in-bits_example :
    (n : ℕ) × (pos 5 ≡ pos n)
    × (pos 5 ≡ signed32 n)
    × (n < 2 ^ 32)
    × ((k : ℕ) → bit_at n k ≡ 1 → (v : ℤ) × Member v five_flags.values × (bit_at (u32 v) k ≡ 1))
flags_in_in-bits_example =
    flags_in_in-bits new0 five_flags (pos 5) (pos 5) (omega arith, omega arith) both_accepted
