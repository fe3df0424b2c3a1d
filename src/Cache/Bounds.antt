-- ===== src/Cache/Bounds.antt =====
-- The least and the greatest value of an enum, and 32-bit numbers between them
-- (gjs_arg_cache_build_enum_bounds and gjs_marshal_enum_in_in of gi/arg-cache.cpp).
use cjs.Prelude.{
  ℕ, ◌%◌, ◌^◌, ◌≤◌, ◌<◌, ◌≡◌, ◌⊎◌, inl, inr, refl, sym, ap, Bool, true, false, none, some, List, [],
  ◌∷◌, if◌then◌else◌, get_elem?, zero, suc, ◌&&◌, ◌||◌, not, arith, Bool-cases,
}
use cjs.Prelude.Int.{ℤ, pos, negsuc, ltb_ℤ, ◌≤ℤ◌, pos_part, neg_part}
use cjs.Cache.Defs.{u32, signed32, min_value, max_value, enum_in_in, Contents, int32_max}

abbrev pub InInt32 : ℤ → Type 0
InInt32 v = (pos_part v < 2 ^ 31) × (neg_part v ≤ 2 ^ 31)

abbrev pub InUint32 : ℤ → Type 0
InUint32 v = (pos_part v < 2 ^ 32) × (neg_part v ≡ 0)

pub signed32-u32 : (v : ℤ) → InInt32 v → signed32 (u32 v) ≡ v
signed32-u32 (pos n) h = ground arith
signed32-u32 (negsuc n) h = ground arith

pub u32_unsigned : (v : ℤ) → InUint32 v → pos (u32 v) ≡ v
u32_unsigned (pos n) h = ap pos (omega (arith, h))
u32_unsigned (negsuc n) h = absurd (omega (arith, h))

-- The least value is no greater than any, and is one of them or the start.
pub min_value_low : (low : ℤ) (vs : List ℤ) → min_value low vs ≤ℤ low
unfolding min_value
min_value_low low [] = omega arith
min_value_low low (v ∷ vs) = elim (Bool-cases (ltb_ℤ v low)) [
  | inl e ↦ rw (min_value, e) (ground (arith, e, min_value_low v vs))
  | inr e ↦ rw (min_value, e) (min_value_low low vs)
]

pub min_value_le :
    (low : ℤ) (vs : List ℤ) (i : ℕ) (v : ℤ) → get_elem? vs i ≡ some v → min_value low vs ≤ℤ v
unfolding min_value
min_value_le low [] i v e = absurd (ground arith)
min_value_le low (x ∷ xs) zero v e = elim (Bool-cases (ltb_ℤ x low)) [
  | inl less ↦ rw (min_value, less) (ground (arith, min_value_low x xs))
  | inr more ↦ rw (min_value, more) (ground (arith, more, min_value_low low xs))
]
min_value_le low (x ∷ xs) (suc i) v e = min_value_le (if ltb_ℤ x low then x else low) xs i v e

abbrev pub Member : ℤ → List ℤ → Type 0
Member v vs = (i : ℕ) × (get_elem? vs i ≡ some v)

pub min_value-Member :
    (low : ℤ) (vs : List ℤ) → (min_value low vs ≡ low) ⊎ Member (min_value low vs) vs
unfolding min_value
min_value-Member low [] = inl refl
min_value-Member low (x ∷ xs) = elim (Bool-cases (ltb_ℤ x low)) [
  | inl less ↦
      rw (min_value, less)
        elim (min_value-Member x xs) [
          | inl here ↦ inr (0, ap some (sym here))
          | inr (i, there) ↦ inr (suc i, there)
        ]
  | inr more ↦
      rw (min_value, more)
        elim (min_value-Member low xs) [ inl here ↦ inl here | inr (i, there) ↦ inr (suc i, there) ]
]

-- The same of the greatest value.
pub max_value_high : (high : ℤ) (vs : List ℤ) → high ≤ℤ max_value high vs
unfolding max_value
max_value_high high [] = omega arith
max_value_high high (v ∷ vs) = elim (Bool-cases (ltb_ℤ high v)) [
  | inl e ↦ rw (max_value, e) (ground (arith, e, max_value_high v vs))
  | inr e ↦ rw (max_value, e) (max_value_high high vs)
]

pub max_value_ge :
    (high : ℤ) (vs : List ℤ) (i : ℕ) (v : ℤ) → get_elem? vs i ≡ some v → v ≤ℤ max_value high vs
unfolding max_value
max_value_ge high [] i v e = absurd (ground arith)
max_value_ge high (x ∷ xs) zero v e = elim (Bool-cases (ltb_ℤ high x)) [
  | inl less ↦ rw (max_value, less) (ground (arith, max_value_high x xs))
  | inr more ↦ rw (max_value, more) (ground (arith, more, max_value_high high xs))
]
max_value_ge high (x ∷ xs) (suc i) v e = max_value_ge (if ltb_ℤ high x then x else high) xs i v e

pub max_value-Member :
    (high : ℤ) (vs : List ℤ) → (max_value high vs ≡ high) ⊎ Member (max_value high vs) vs
unfolding max_value
max_value-Member high [] = inl refl
max_value-Member high (x ∷ xs) = elim (Bool-cases (ltb_ℤ high x)) [
  | inl less ↦
      rw (max_value, less)
        elim (max_value-Member x xs) [
          | inl here ↦ inr (0, ap some (sym here))
          | inr (i, there) ↦ inr (suc i, there)
        ]
  | inr more ↦
      rw (max_value, more)
        elim (max_value-Member high xs) [
          | inl here ↦ inl here
          | inr (i, there) ↦ inr (suc i, there)
        ]
]

-- All the values of an enum fit a signed, or all fit an unsigned 32-bit integer.
abbrev pub Fits : List ℤ → Type 0
Fits vs =
    ((i : ℕ) (v : ℤ) → get_elem? vs i ≡ some v → InInt32 v)
    ⊎ ((i : ℕ) (v : ℤ) → get_elem? vs i ≡ some v → InUint32 v)

unfoldable pub Within : ℤ → ℤ → ℤ → Type 0
Within lo hi x = (lo ≤ℤ x) × (x ≤ℤ hi)

pub Within-of_test : (lo hi x : ℤ) → (ltb_ℤ hi x || ltb_ℤ x lo) ≡ false → Within lo hi x
unfolding Within
Within-of_test lo hi x e = (ground arith, ground arith)

pub test_of_Within : (lo hi x : ℤ) → Within lo hi x → (ltb_ℤ hi x || ltb_ℤ x lo) ≡ false
unfolding Within
test_of_Within lo hi x h = ground arith

pub Within-InInt32 : (lo hi x : ℤ) → Within lo hi x → InInt32 lo → InInt32 hi → InInt32 x
unfolding Within
Within-InInt32 lo hi (pos n) h small large = omega (arith, h, small, large)
Within-InInt32 lo hi (negsuc n) h small large = omega (arith, h, small, large)

pub Within-InUint32 : (lo hi x : ℤ) → Within lo hi x → InUint32 lo → InUint32 hi → InUint32 x
unfolding Within
Within-InUint32 lo hi (pos n) h small large = omega (arith, h, small, large)
Within-InUint32 lo hi (negsuc n) h small large = omega (arith, h, small, large)

pub large_not_signed :
    (lo hi : ℤ) → InInt32 hi → ¬ ((not (ltb_ℤ lo (pos 0)) && ltb_ℤ int32_max hi) ≡ true)
large_not_signed lo hi h e = ground arith

pub small_unsigned :
    (lo hi : ℤ)
    → InUint32 lo
    → InUint32 hi
    → lo ≤ℤ hi
    → (not (ltb_ℤ lo (pos 0)) && ltb_ℤ int32_max hi) ≡ false
    → InInt32 lo × InInt32 hi
small_unsigned lo hi small large le e = ground arith

pub unsigned_test :
    (lo hi x : ℤ)
    → InUint32 lo
    → InUint32 hi
    → enum_in_in true (Contents.enum_type (u32 lo) (u32 hi)) x
      ≡ (if ltb_ℤ hi x || ltb_ℤ x lo then none else some x)
unfolding enum_in_in
unsigned_test (negsuc n) hi x small large = absurd (omega (arith, small))
unsigned_test (pos n) (negsuc m) x small large = absurd (omega (arith, large))
unsigned_test (pos n) (pos m) x small large =
    rw (fits_mod n small.0, fits_mod m large.0) (same _ refl)
  where
    fits_mod : (k : ℕ) → k < 2 ^ 32 → k % 2 ^ 32 ≡ k
    fits_mod k h = omega arith

    same :
        (b : Bool)
        → (ltb_ℤ (pos m) x || ltb_ℤ x (pos n)) ≡ b
        → (if b then none else some (pos (u32 x))) ≡ (if b then none else some x)
    same true e = refl
    same false e = ap some (
        u32_unsigned x
          (Within-InUint32 (pos n) (pos m) x (Within-of_test (pos n) (pos m) x e) small large))
