-- ===== src/Cache/Defs.antt =====
-- GjsArgumentCache (gi/arg-cache.h) and the bounds that it keeps for enums and flags
-- (gi/arg-cache.cpp).
use Prim.Native.Nat.{bit_or}
use cjs.Prelude.{
  ℕ, ◌-◌, ◌%◌, ◌^◌, Bool, true, false, Option, none, some, List, [], ◌∷◌, String, if◌then◌else◌,
  ◌&&◌, ◌||◌, ◌==◌, not, leb, ltb,
}
use cjs.Prelude.Int.{ℤ, pos, negsuc, ltb_ℤ}
use cjs.Gi.{TypeTag, Transfer, ScopeType, InterfaceInfo, InfoType}
use cjs.Cache.Marshallers.{Marshallers}

-- The union `contents`, by the member that was written last; `zeroed` is what `g_new0` gives.
pub data Contents : Type 0 where
  zeroed : Contents
  array : (length_pos : ℕ) → TypeTag → Contents
  callback : (closure_pos destroy_pos : ℕ) → ScopeType → Contents
  number : TypeTag → Contents
  object : (gtype : ℕ) → InterfaceInfo → Contents
  enum_type : (enum_min enum_max : ℕ) → Contents
  flags_mask : ℕ → Contents
  string_is_filename : Bool → Contents
  caller_allocates_size : ℕ → Contents

pub record ArgumentCache : Type 0 where
  pub marshallers : Option Marshallers
  pub arg_name : String
  pub type_tag : TypeTag
  pub arg_pos : ℕ
  pub skip_in : Bool
  pub skip_out : Bool
  pub transfer : Transfer
  pub nullable : Bool
  pub is_unsigned : Bool
  pub contents : Contents

unfoldable pub new0 : ArgumentCache
new0 = record {
  marshallers = none;
  arg_name = "";
  type_tag = TypeTag.void;
  arg_pos = 0;
  skip_in = false;
  skip_out = false;
  transfer = Transfer.nothing;
  nullable = false;
  is_unsigned = false;
  contents = zeroed;
}

abbrev pub max_args : ℕ
max_args = 253

abbrev pub instance_param : ℕ
instance_param = 254

abbrev pub return_pos : ℕ
return_pos = 255

abbrev pub absent : ℕ
absent = 255

-- The exceptions that the builders throw.
pub data Message : Type 0 where
  not_introspectable : (arg_name : String) → Message
  unboxed_type : (arg_name : String) → Message
  unsupported_type : TypeTag → (arg_name : String) → Message
  unsupported_interface : InfoType → (arg_name : String) → Message
  callback_out : (arg_name : String) → Message
  destroy_without_user_data : Message

-- `false` with an exception, or a failed assertion.
pub data Result {μ} (Value : Type μ) : Type μ where
  abort : Result Value
  throw : Message → Result Value
  ok : Value → Result Value

infixl 5 ◌>>=◌
abbrev pub ◌>>=◌ {μ ν} : {S : Type μ} {T : Type ν} → Result S → (S → Result T) → Result T
abort >>= next = abort
throw message >>= next = throw message
ok value >>= next = next value

unfoldable pub set_instance_parameter : ArgumentCache → ArgumentCache
set_instance_parameter self = record self {
  arg_pos = instance_param;
  arg_name = "instance parameter";
  nullable = false;
  skip_out = true;
}

unfoldable pub set_return_value : ArgumentCache → ArgumentCache
set_return_value self = record self {
  arg_pos = return_pos;
  arg_name = "return value";
  nullable = false;
}

unfoldable pub is_return_value : ArgumentCache → Bool
is_return_value self = self.arg_pos == return_pos

unfoldable pub set_arg_pos : ℕ → ArgumentCache → Result ArgumentCache
set_arg_pos i self = if leb i max_args then ok (record self { arg_pos = i }) else abort

-- A callback position as it is stored: one that is not given is stored as `absent`.
unfoldable pub callback_pos : Option ℕ → Result ℕ
callback_pos none = ok absent
callback_pos (some i) = if leb i max_args then ok i else abort

unfoldable pub array_pos : ℕ → Result ℕ
array_pos i = if leb i max_args then ok i else abort

unfoldable pub has_callback_pos : ℕ → Bool
has_callback_pos i = not (i == absent)

unfoldable pub set_skip_all : ArgumentCache → ArgumentCache
set_skip_all self = record self {
  marshallers = some Marshallers.skip_all;
  skip_in = true;
  skip_out = true;
}

abbrev pub u32 : ℤ → ℕ
u32 (pos n) = n % 2 ^ 32
u32 (negsuc n) = 2 ^ 32 - 1 - n % 2 ^ 32

abbrev pub signed32 : ℕ → ℤ
signed32 w = if ltb w (2 ^ 31) then pos w else negsuc (2 ^ 32 - w - 1)

abbrev pub int64_max : ℤ
int64_max = pos (2 ^ 63 - 1)

abbrev pub int64_min : ℤ
int64_min = negsuc (2 ^ 63 - 1)

abbrev pub int32_max : ℤ
int32_max = pos (2 ^ 31 - 1)

-- The loop over the values of the enum.
unfoldable pub min_value : ℤ → List ℤ → ℤ
min_value low [] = low
min_value low (v ∷ vs) = min_value (if ltb_ℤ v low then v else low) vs

unfoldable pub max_value : ℤ → List ℤ → ℤ
max_value high [] = high
max_value high (v ∷ vs) = max_value (if ltb_ℤ high v then v else high) vs

unfoldable pub build_enum_bounds : ArgumentCache → InterfaceInfo → ArgumentCache
unfolding min_value max_value
build_enum_bounds self enum_info =
    let low = min_value int64_max enum_info.values in
    let high = max_value int64_min enum_info.values in
    record self {
      contents = enum_type (u32 low) (u32 high);
      is_unsigned = not (ltb_ℤ low (pos 0)) && ltb_ℤ int32_max high;
    }

unfoldable pub or_values : ℕ → List ℤ → ℕ
or_values mask [] = mask
or_values mask (v ∷ vs) = or_values (bit_or mask (u32 v)) vs

unfoldable pub build_flags_mask : ArgumentCache → InterfaceInfo → ArgumentCache
unfolding or_values
build_flags_mask self enum_info = record self {
  contents = flags_mask (or_values 0 enum_info.values % 2 ^ 32);
}

-- The number that is stored in the argument, or `none` for the exception. The last argument is
-- what JS::ToInt64 made of the value.
unfoldable pub enum_in_in : (is_unsigned : Bool) → Contents → ℤ → Option ℤ
enum_in_in true (enum_type enum_min enum_max) value =
    if ltb_ℤ (pos enum_max) value || ltb_ℤ value (pos enum_min)
    then none
    else some (pos (u32 value))
enum_in_in false (enum_type enum_min enum_max) value =
    if ltb_ℤ (signed32 enum_max) value || ltb_ℤ value (signed32 enum_min)
    then none
    else some (signed32 (u32 value))
enum_in_in _ _ value = none
