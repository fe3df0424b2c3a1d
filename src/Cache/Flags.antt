-- ===== src/Cache/Flags.antt =====
-- The mask that a flags argument keeps (gjs_arg_cache_build_flags_mask of gi/arg-cache.cpp) and the
-- values that gjs_marshal_flags_in_in accepts with it.
use Prim.Native.Nat.{bit_and, bit_or}
use mathlib.Core.Path.{subst}
use mathlib.Core.Option.{some-injective}
use cjs.Prelude.{
  ℕ, zero, suc, ◌%◌, ◌^◌, ◌<◌, ◌≤◌, ◌≡◌, ◌⊎◌, inl, inr, refl, sym, ap, ◌∙◌, Bool, true, false, none,
  some, List, [], ◌∷◌, arith, ◌==◌, if◌then◌else◌, ◌-◌, ==_iff,
}
use cjs.Prelude.Bits.{
  ◌⊑◌, zero_⊑, ⊑-le, ⊑-or_left, ⊑-or_right, or-⊑, or-bound, bit_at, bit_at-⊑, bit_at-or,
  bit_at-zero, bit_at-small,
}
use cjs.Prelude.Int.{ℤ, pos, negsuc, pos_part, neg_part}
use cjs.Gi.{InterfaceInfo}
use cjs.Cache.Defs.{ArgumentCache, u32, signed32, or_values, build_flags_mask}
use cjs.Cache.Bounds.{Member}
use cjs.Cache.Integers.{flags_in_in}

abbrev pub InInt64 : ℤ → Type 0
InInt64 v = (pos_part v < 2 ^ 63) × (neg_part v ≤ 2 ^ 63)

u32-bound : (v : ℤ) → u32 v < 2 ^ 32
u32-bound (pos n) = omega arith
u32-bound (negsuc n) = omega arith

or_values-bound : (mask : ℕ) (vs : List ℤ) → mask < 2 ^ 32 → or_values mask vs < 2 ^ 32
unfolding or_values
or_values-bound mask [] h = h
or_values-bound mask (v ∷ vs) h =
    or_values-bound (bit_or mask (u32 v)) vs (or-bound 32 mask (u32 v) h (u32-bound v))

or_values-start : (a mask : ℕ) (vs : List ℤ) → a ⊑ mask → a ⊑ or_values mask vs
unfolding or_values
or_values-start a mask [] h = h
or_values-start a mask (v ∷ vs) h =
    or_values-start a (bit_or mask (u32 v)) vs (⊑-or_left a mask (u32 v) h)

or_values-Member : (mask : ℕ) (vs : List ℤ) (v : ℤ) → Member v vs → u32 v ⊑ or_values mask vs
unfolding or_values
or_values-Member mask [] v (i, e) = absurd (ground arith)
or_values-Member mask (x ∷ vs) v (zero, e) =
    subst (λ y. u32 y ⊑ or_values (bit_or mask (u32 x)) vs) (some-injective _ _ e)
      (or_values-start (u32 x) (bit_or mask (u32 x)) vs (⊑-or_right (u32 x) mask))
or_values-Member mask (x ∷ vs) v (suc i, e) = or_values-Member (bit_or mask (u32 x)) vs v (i, e)

or_values-⊑ :
    (mask m : ℕ) (us : List ℤ)
    → mask ⊑ m
    → ((u : ℤ) → Member u us → u32 u ⊑ m)
    → or_values mask us ⊑ m
unfolding or_values
or_values-⊑ mask m [] h all = h
or_values-⊑ mask m (u ∷ us) h all =
    or_values-⊑ (bit_or mask (u32 u)) m us (or-⊑ mask (u32 u) m h (all u (0, refl)))
      (λ v (i, e). all v (suc i, e))

one_or_zero : (a : ℕ) → a ≤ 1 → (a ≡ 1) ⊎ (a ≡ 0)
one_or_zero zero h = inr refl
one_or_zero (suc zero) h = inl refl
one_or_zero (suc (suc a)) h = absurd (omega (arith, h))

-- A digit of the mask comes from a value.
or_values-bit :
    (k mask : ℕ) (vs : List ℤ)
    → bit_at (or_values mask vs) k ≡ 1
    → (bit_at mask k ≡ 1) ⊎ ((v : ℤ) × Member v vs × (bit_at (u32 v) k ≡ 1))
unfolding or_values
or_values-bit k mask [] h = inl h
or_values-bit k mask (v ∷ vs) h = elim (or_values-bit k (bit_or mask (u32 v)) vs h) [
  | inr (w, (i, e), set) ↦ inr (w, (suc i, e), set)
  | inl set ↦ elim (one_or_zero (bit_at mask k) (bit_at-small k mask)) [
    | inl here ↦ inl here
    | inr not_here ↦ inr (
      v,
      (0, refl),
      omega (arith, bit_at-or k mask (u32 v), set, bit_at-small k (u32 v), not_here),
    )
  ]
]

mask-small : (vs : List ℤ) → or_values 0 vs % 2 ^ 32 ≡ or_values 0 vs
mask-small vs = omega (arith, or_values-bound 0 vs (omega arith))

-- Any combination of declared flags is accepted, and its 32 bits are stored as a signed integer.
pub flags_in_in-declared :
    (self : ArgumentCache) (info : InterfaceInfo) (chosen : List ℤ)
    → ((v : ℤ) → Member v chosen → Member v info.values)
    → flags_in_in (build_flags_mask self info).contents (pos (or_values 0 chosen))
      ≡ some (signed32 (or_values 0 chosen))
unfolding build_flags_mask flags_in_in
flags_in_in-declared self info chosen declared =
    rw (mask-small info.values, as_word, (==_iff _ _).1 within, mask-small chosen) refl
  where
    as_word : or_values 0 chosen % 2 ^ 64 ≡ or_values 0 chosen
    as_word = omega (arith, or_values-bound 0 chosen (omega arith))

    within : or_values 0 chosen ⊑ or_values 0 info.values
    within =
        or_values-⊑ 0 (or_values 0 info.values) chosen (zero_⊑ _)
          (λ u m. or_values-Member 0 info.values u (declared u m))

chosen_true : (b : Bool) (x y : ℤ) → (if b then some x else none) ≡ some y → (b ≡ true) × (x ≡ y)
chosen_true true x y e = (refl, some-injective _ _ e)
chosen_true false x y e = absurd (ground arith)

accepted_word :
    (w mask : ℕ) (y : ℤ)
    → (if bit_and w mask == w then some (signed32 (w % 2 ^ 32)) else none) ≡ some y
    → (w ⊑ mask) × (y ≡ signed32 (w % 2 ^ 32))
accepted_word w mask y e =
    let h = chosen_true (bit_and w mask == w) _ y e in ((==_iff _ _).0 h.0, sym h.1)

-- A number that is accepted for flags, and that the engine gives as a 64-bit integer, is not
-- negative and is stored as its 32 bits, and each bit of it belongs to a declared flag.
pub flags_in_in-bits :
    (self : ArgumentCache) (info : InterfaceInfo) (x y : ℤ)
    → InInt64 x
    → flags_in_in (build_flags_mask self info).contents x ≡ some y
    → (n : ℕ) × (x ≡ pos n)
      × (y ≡ signed32 n)
      × (n < 2 ^ 32)
      × ((k : ℕ) → bit_at n k ≡ 1 → (v : ℤ) × Member v info.values × (bit_at (u32 v) k ≡ 1))
unfolding build_flags_mask flags_in_in
flags_in_in-bits self info (pos n) y range accepted =
    let h = accepted_word (n % 2 ^ 64) (or_values 0 info.values % 2 ^ 32) y accepted in
    let as_word : n % 2 ^ 64 ≡ n = omega (arith, range) in
    let within : n ⊑ or_values 0 info.values =
      subst (λ m. n ⊑ m) (mask-small info.values)
        (subst (λ w. w ⊑ or_values 0 info.values % 2 ^ 32) as_word h.0) in
    let small : n < 2 ^ 32 = omega (
      arith,
      ⊑-le n (or_values 0 info.values) within,
      or_values-bound 0 info.values (omega arith),
    ) in
    (n, refl, h.1 ∙ ap signed32 (omega (arith, small)), small, λ k set. declared k set within)
  where
    declared :
        (k : ℕ)
        → bit_at n k ≡ 1
        → n ⊑ or_values 0 info.values
        → (v : ℤ) × Member v info.values × (bit_at (u32 v) k ≡ 1)
    declared k set within =
        elim (or_values-bit k 0 info.values (
          omega (
            arith,
            set,
            bit_at-⊑ k n (or_values 0 info.values) within,
            bit_at-small k (or_values 0 info.values),
          ))) [ inl none_yet ↦ absurd (omega (arith, none_yet, bit_at-zero k)) | inr found ↦ found ]
flags_in_in-bits self info (negsuc n) y range accepted =
    let h = accepted_word (2 ^ 64 - 1 - n % 2 ^ 64) (or_values 0 info.values % 2 ^ 32) y accepted in
    absurd
      (omega (arith, range, ⊑-le (2 ^ 64 - 1 - n % 2 ^ 64) (or_values 0 info.values % 2 ^ 32) h.0))
