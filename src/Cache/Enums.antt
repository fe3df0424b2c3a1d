-- ===== src/Cache/Enums.antt =====
-- The bounds that an enum argument keeps (gjs_arg_cache_build_enum_bounds of gi/arg-cache.cpp) and
-- the values that gjs_marshal_enum_in_in accepts with them.
use mathlib.Core.Path.{subst}
use cjs.Prelude.{
  ℕ, ◌≡◌, inl, inr, refl, sym, ap, ◌∙◌, Bool, true, false, Option, none, some, List, if◌then◌else◌,
  get_elem?, ◌&&◌, ◌||◌, not, arith, Bool-cases,
}
use cjs.Prelude.Int.{ℤ, pos, ltb_ℤ, ◌≤ℤ◌}
use cjs.Gi.{InterfaceInfo}
use cjs.Cache.Defs.{
  ArgumentCache, u32, signed32, min_value, max_value, build_enum_bounds, enum_in_in, Contents,
  int32_max, int64_max, int64_min,
}
use cjs.Cache.Bounds.{
  InInt32, InUint32, signed32-u32, min_value_le, Member, min_value-Member, max_value_ge,
  max_value-Member, Fits, Within, Within-of_test, test_of_Within, Within-InInt32, large_not_signed,
  small_unsigned, unsigned_test,
}

module _ (vs : List ℤ) (i : ℕ) (v : ℤ) (found : get_elem? vs i ≡ some v) (fits : Fits vs) where
  low : ℤ
  low = min_value int64_max vs

  high : ℤ
  high = max_value int64_min vs

  low-Member : Member (min_value int64_max vs) vs
  low-Member = elim (min_value-Member int64_max vs) [
    | inr m ↦ m
    | inl e ↦ absurd (too_big (subst (λ l. l ≤ℤ v) e (min_value_le int64_max vs i v found)))
  ]
    where
      too_big : ¬ (int64_max ≤ℤ v)
      too_big h = elim fits [
        | inl all ↦ omega (arith, all i v found)
        | inr all ↦ omega (arith, all i v found)
      ]

  high-Member : Member (max_value int64_min vs) vs
  high-Member = elim (max_value-Member int64_min vs) [
    | inr m ↦ m
    | inl e ↦ absurd (too_small (subst (λ l. v ≤ℤ l) e (max_value_ge int64_min vs i v found)))
  ]
    where
      too_small : ¬ (v ≤ℤ int64_min)
      too_small h = elim fits [
        | inl all ↦ omega (arith, all i v found)
        | inr all ↦ omega (arith, all i v found)
      ]

  low_high_le : min_value int64_max vs ≤ℤ max_value int64_min vs
  low_high_le =
      omega (arith, min_value_le int64_max vs i v found, max_value_ge int64_min vs i v found)

  -- What is accepted, by the bounds themselves.
  accepts : ℤ → Option ℤ
  accepts x =
      if ltb_ℤ (max_value int64_min vs) x || ltb_ℤ x (min_value int64_max vs) then none else some x

  signed_accepts :
      (x : ℤ)
      → InInt32 (min_value int64_max vs)
      → InInt32 (max_value int64_min vs)
      → enum_in_in false
          (Contents.enum_type (u32 (min_value int64_max vs)) (u32 (max_value int64_min vs)))
          x
        ≡ accepts x
  unfolding enum_in_in accepts
  signed_accepts x small large =
      rw (signed32-u32 (min_value int64_max vs) small, signed32-u32 (max_value int64_min vs) large)
        (same _ refl)
    where
      same :
          (b : Bool)
          → (ltb_ℤ (max_value int64_min vs) x || ltb_ℤ x (min_value int64_max vs)) ≡ b
          → (if b then none else some (signed32 (u32 x))) ≡ (if b then none else some x)
      same true e = refl
      same false e = ap some (
          signed32-u32 x (
            Within-InInt32 (min_value int64_max vs) (max_value int64_min vs) x
              (Within-of_test (min_value int64_max vs) (max_value int64_min vs) x e) small large))

  unsigned_accepts :
      (x : ℤ)
      → InUint32 (min_value int64_max vs)
      → InUint32 (max_value int64_min vs)
      → enum_in_in true
          (Contents.enum_type (u32 (min_value int64_max vs)) (u32 (max_value int64_min vs)))
          x
        ≡ accepts x
  unfolding accepts
  unsigned_accepts x small large =
      unsigned_test (min_value int64_max vs) (max_value int64_min vs) x small large

  build_enum_bounds-accepts :
      (self : ArgumentCache) (info : InterfaceInfo) (x : ℤ)
      → info.values ≡ vs
      → enum_in_in
          (build_enum_bounds self info).is_unsigned
          (build_enum_bounds self info).contents
          x
        ≡ accepts x
  unfolding build_enum_bounds
  build_enum_bounds-accepts self info x e = rw e (
      by_flag
        (not (ltb_ℤ (min_value int64_max vs) (pos 0)) && ltb_ℤ int32_max (max_value int64_min vs))
        refl)
    where
      by_flag :
          (b : Bool)
          → (not (ltb_ℤ (min_value int64_max vs) (pos 0))
              && ltb_ℤ int32_max (max_value int64_min vs))
            ≡ b
          → enum_in_in b
              (Contents.enum_type (u32 (min_value int64_max vs)) (u32 (max_value int64_min vs)))
              x
            ≡ accepts x
      by_flag true flag = elim fits [
        | inl all ↦ absurd (
            large_not_signed (min_value int64_max vs) (max_value int64_min vs)
              (all high-Member.0 _ high-Member.1) flag)
        | inr all ↦
            unsigned_accepts x (all low-Member.0 _ low-Member.1) (all high-Member.0 _ high-Member.1)
      ]
      by_flag false flag = elim fits [
        | inl all ↦
            signed_accepts x (all low-Member.0 _ low-Member.1) (all high-Member.0 _ high-Member.1)
        | inr all ↦
            let (a, b) =
              small_unsigned (min_value int64_max vs) (max_value int64_min vs)
                (all low-Member.0 _ low-Member.1) (all high-Member.0 _ high-Member.1) (low_high_le)
                flag in
            signed_accepts x a b
      ]

  -- In an enum whose values all fit a signed, or all an unsigned 32-bit integer, every declared
  -- value is accepted and stored as it is.
  pub enum_in_in-declared :
      (self : ArgumentCache) (info : InterfaceInfo)
      → info.values ≡ vs
      → enum_in_in
          (build_enum_bounds self info).is_unsigned
          (build_enum_bounds self info).contents
          v
        ≡ some v
  unfolding accepts Within
  enum_in_in-declared self info e =
      build_enum_bounds-accepts self info v e
      ∙ rw
          (test_of_Within (min_value int64_max vs) (max_value int64_min vs) v
            (min_value_le int64_max vs i v found, max_value_ge int64_min vs i v found))
          refl

  -- In an enum that declares a value, and whose values all fit a signed, or all an unsigned 32-bit
  -- integer, a number that is accepted is stored as it is, and lies between two declared values.
  pub enum_in_in-between :
      (self : ArgumentCache) (info : InterfaceInfo) (x y : ℤ)
      → info.values ≡ vs
      → enum_in_in
          (build_enum_bounds self info).is_unsigned
          (build_enum_bounds self info).contents
          x
        ≡ some y
      → (y ≡ x)
        × ((a b : ℤ) × (j k : ℕ) × (get_elem? vs j ≡ some a)
            × (get_elem? vs k ≡ some b)
            × (a ≤ℤ x)
            × (x ≤ℤ b))
  unfolding accepts Within
  enum_in_in-between self info x y e accepted =
      elim (Bool-cases (ltb_ℤ (max_value int64_min vs) x || ltb_ℤ x (min_value int64_max vs))) [
        | inl out ↦
            absurd (ground (arith, out, sym (build_enum_bounds-accepts self info x e) ∙ accepted))
        | inr in_bounds ↦
            let h = Within-of_test (min_value int64_max vs) (max_value int64_min vs) x in_bounds in
            (
              ground (arith, in_bounds, sym (build_enum_bounds-accepts self info x e) ∙ accepted),
              (
                min_value int64_max vs,
                max_value int64_min vs,
                low-Member.0,
                high-Member.0,
                low-Member.1,
                high-Member.1,
                h.0,
                h.1,
              ),
            )
      ]
