-- ===== src/Cache/Tables.antt =====
-- The table that is chosen for an in-argument by its type (gi/arg-cache.cpp).
use cjs.Prelude.{
  ◌≡◌, ◌==◌, refl, ap, Bool, true, false, Option, none, some, if◌then◌else◌, arith, ◌&&◌, not,
}
use mathlib.Core.Path.{subst}
use cjs.Gi.{TypeTag, InterfaceInfo, TypeInfo, InfoType, TypeSystem}
use cjs.Cache.Marshallers.{Marshallers, OutMarshaller, marshal_in, marshal_out}
use cjs.Cache.Defs.{
  Contents, ArgumentCache, Message, Result, ok, throw, build_enum_bounds, build_flags_mask,
}
use cjs.Cache.Interface.{
  registered_in_arg, interface_switch, build_interface_in_arg, build_normal_in_arg, is_gdk_atom,
  is_nothing, is_container, is_union, use_transfer,
}

abbrev pub has_in : Option Marshallers → Bool
has_in none = false
has_in (some m) = elim (marshal_in m) [ none ↦ false | some _ ↦ true ]

-- A table that converts the argument before the call, and nothing after it.
abbrev pub only_in : Option Marshallers → Bool
only_in none = false
only_in (some m) = elim (marshal_in m) [
  | none ↦ false
  | some _ ↦ elim (marshal_out m) [
    | none ↦ true
    | some OutMarshaller.skipped ↦ true
    | some _ ↦ false
  ]
]

-- What a builder for an in-argument may do to the cache.
pub record IsInArg (self self' : ArgumentCache) : Type 0 where
  pub table : only_in self'.marshallers ≡ true
  pub same_in : self'.skip_in ≡ self.skip_in
  pub same_out : self'.skip_out ≡ self.skip_out
  pub same_pos : self'.arg_pos ≡ self.arg_pos
  pub same_transfer : self'.transfer ≡ self.transfer
  pub same_nullable : self'.nullable ≡ self.nullable

or_self : ArgumentCache → Result ArgumentCache → ArgumentCache
or_self self (ok c) = c
or_self self _ = self

pub ok-injective : {a b : ArgumentCache} → ok a ≡ ok b → a ≡ b
unfolding or_self
ok-injective {a} e = ap (or_self a) e

if_only_in :
    (b : Bool) (m n : Marshallers)
    → only_in (some m) ≡ true
    → only_in (some n) ≡ true
    → only_in (some (if b then m else n)) ≡ true
if_only_in true m n h k = h
if_only_in false m n h k = k

record Builds (self : ArgumentCache) (r : Result ArgumentCache) : Type 0 where
  built : (self' : ArgumentCache) → r ≡ ok self' → IsInArg self self'

Builds-ok : {self self' : ArgumentCache} → IsInArg self self' → Builds self (ok self')
Builds-ok {self} h = record { built = λ c e. subst (IsInArg self) (ok-injective e) h }

Builds-throw : (self : ArgumentCache) (m : Message) → Builds self (throw m)
Builds-throw self m = record { built = λ c e. absurd (ground arith) }

Builds-if :
    {self : ArgumentCache} (b : Bool) {r s : Result ArgumentCache}
    → Builds self r
    → Builds self s
    → Builds self (if b then r else s)
Builds-if true h k = h
Builds-if false h k = k

-- The leaves: one table, or one of two, with the flags and what the caller set left alone.
Builds-table :
    (self : ArgumentCache) (c : Contents) (is_unsigned : Bool) (m : Marshallers)
    → only_in (some m) ≡ true
    → Builds self
        (ok (record self { marshallers = some m; contents = c; is_unsigned = is_unsigned }))
Builds-table self c is_unsigned m h = Builds-ok (record {
  table = h;
  same_in = refl;
  same_out = refl;
  same_pos = refl;
  same_transfer = refl;
  same_nullable = refl;
})

Builds-transfer :
    (self : ArgumentCache) (c : Contents) (inst : Bool) (m n : Marshallers)
    → only_in (some m) ≡ true
    → only_in (some n) ≡ true
    → Builds self (use_transfer (record self { contents = c }) inst m n)
Builds-transfer self c inst m n h k =
    Builds-if (is_nothing self.transfer && not inst) (Builds-table self c self.is_unsigned m h)
      (Builds-table self c self.is_unsigned n k)

module _ (types : TypeSystem) where
  open types use {
    value_type, closure_type, bytes_type, object_type, param_type, interface_type, none_type, is_a,
    is_instantiatable,
  }

  registered-Builds :
      (self : ArgumentCache) (info : InterfaceInfo) (inst : Bool)
      → Builds self (
          registered_in_arg types
            (record self { contents = Contents.object info.gtype info })
            info
            inst)
  unfolding registered_in_arg marshal_in marshal_out
  registered-Builds self info inst =
      let table : (m : Marshallers)
          → only_in (some m) ≡ true
          → Builds self (
              ok (record self {
                marshallers = some m;
                contents = Contents.object info.gtype info;
              })) =
        Builds-table self (Contents.object info.gtype info) self.is_unsigned in
      let transfer = Builds-transfer self (Contents.object info.gtype info) inst in
      Builds-if (info.gtype == value_type) (transfer _ _ refl refl) (
        Builds-if (is_gdk_atom info) (table _ refl) (
          Builds-if (info.gtype == closure_type) (transfer _ _ refl refl) (
            Builds-if (info.gtype == bytes_type) (transfer _ _ refl refl) (
              Builds-if (is_a info.gtype object_type) (table _ refl) (
                Builds-if (is_a info.gtype param_type) (table _ refl) (
                  Builds-if (is_union info.info_type)
                    (Builds-if (info.gtype == none_type) (Builds-throw self _) (table _ refl))
                    (Builds-if (is_instantiatable info.gtype) (table _ refl) (
                      Builds-if (is_a info.gtype interface_type) (table _ refl) (
                        Builds-if (info.gtype == none_type && not (is_nothing self.transfer))
                          (Builds-throw self _) (table _ refl))))))))))

  interface_switch-Builds :
      (kind : InfoType) (self : ArgumentCache) (info : InterfaceInfo) (inst : Bool)
      → Builds self (interface_switch types kind self info inst)
  unfolding interface_switch marshal_in marshal_out build_enum_bounds build_flags_mask
  interface_switch-Builds InfoType.enum self info inst = Builds-table self _ _ _ refl
  interface_switch-Builds InfoType.flags self info inst = Builds-table self _ _ _ refl
  interface_switch-Builds InfoType.structure self info inst =
      Builds-if info.is_foreign
        (Builds-if inst (Builds-table self _ _ _ refl) (Builds-table self _ _ _ refl))
        (registered-Builds self info inst)
  interface_switch-Builds InfoType.boxed self info inst = registered-Builds self info inst
  interface_switch-Builds InfoType.object self info inst = registered-Builds self info inst
  interface_switch-Builds InfoType.interface self info inst = registered-Builds self info inst
  interface_switch-Builds InfoType.union self info inst = registered-Builds self info inst
  interface_switch-Builds _ self info inst = Builds-throw self _

  interface_in_arg-Builds :
      (self : ArgumentCache) (info : InterfaceInfo) (inst : Bool)
      → Builds self (build_interface_in_arg types self info inst)
  unfolding build_interface_in_arg
  interface_in_arg-Builds self info inst =
      Builds-if (is_container self.transfer) (Builds-throw self _)
        (interface_switch-Builds info.info_type self info inst)

  normal_in_arg-Builds :
      (tag : TypeTag) (self : ArgumentCache) (info : TypeInfo)
      → Builds self (build_normal_in_arg types self info tag)
  unfolding build_normal_in_arg marshal_in marshal_out
  normal_in_arg-Builds TypeTag.interface self info =
      interface_in_arg-Builds self info.interface_info false
  normal_in_arg-Builds TypeTag.utf8 self info = Builds-ok (record {
    table = if_only_in (is_nothing self.transfer) _ _ refl refl;
    same_in = refl;
    same_out = refl;
    same_pos = refl;
    same_transfer = refl;
    same_nullable = refl;
  })
  normal_in_arg-Builds TypeTag.filename self info = Builds-ok (record {
    table = if_only_in (is_nothing self.transfer) _ _ refl refl;
    same_in = refl;
    same_out = refl;
    same_pos = refl;
    same_transfer = refl;
    same_nullable = refl;
  })
  normal_in_arg-Builds _ self info = Builds-table self _ _ _ refl

  -- Whatever the type of an in-argument is, if it can be converted at all then its table has a
  -- function that converts it before the call and none that converts it after, and its place, its
  -- ownership, whether it may be null, and the flags that skip it are as they were.
  pub build_normal_in_arg-IsInArg :
      (self self' : ArgumentCache) (info : TypeInfo) (tag : TypeTag)
      → build_normal_in_arg types self info tag ≡ ok self'
      → IsInArg self self'
  build_normal_in_arg-IsInArg self self' info tag = (normal_in_arg-Builds tag self info).built self'
