-- ===== src/Release.antt =====
-- What a C function is given and gives back, freed again (gi/arg.cpp): gjs_g_argument_release and
-- its relatives. This file has the types and the values, with what is freed as a list of events.
pub mod Needs
pub mod Internal
pub mod Entry
pub mod Owned
pub mod Cases
pub mod Arrays
pub mod Once
pub mod Keeping
pub mod Borrowed
pub mod Shell
mod Examples
use cjs.Prelude.{ℕ, zero, suc, Bool, true, false, Option, none, some, List, [], ◌∷◌, ◌++◌, ◌&&◌}
use cjs.Gi.{TypeTag, InfoType, Transfer}

-- The first of the tests on a GType that holds, in the order of gjs_g_arg_release_internal:
-- G_TYPE_OBJECT, G_TYPE_PARAM, G_TYPE_CLOSURE, G_TYPE_VALUE, G_TYPE_BOXED, G_TYPE_VARIANT,
-- G_TYPE_NONE, and G_TYPE_IS_INSTANTIATABLE.
pub data Kind : Type 0 where
  object param closure value boxed variant unregistered instantiatable other : Kind

-- `gtype` is the registered type; `has_type_instances` says that it is instantiatable or an interface,
-- so that its values name their own type; `foreign_releases` is what
-- gjs_struct_foreign_release_g_argument answers.
pub record Interface : Type 0 where
  pub info_type : InfoType
  pub gtype : Kind
  pub has_type_instances : Bool
  pub is_foreign : Bool
  pub foreign_releases : Bool

pub data ArrayType : Type 0 where
  c_array g_array ptr_array byte_array : ArrayType

-- A GITypeInfo with its contents. `simple` has the tags without any.
pub data TypeInfo : Type 0 where
  simple : TypeTag → TypeInfo
  interface_of : (is_pointer : Bool) → Interface → TypeInfo
  glist_of gslist_of : TypeInfo → TypeInfo
  array_of : ArrayType → (is_zero_terminated : Bool) → (fixed_size : Option ℕ) → TypeInfo → TypeInfo
  ghash_of : TypeInfo → TypeInfo → TypeInfo

abbrev pub g_type_info_get_tag : TypeInfo → TypeTag
g_type_info_get_tag (simple tag) = tag
g_type_info_get_tag (interface_of _ _) = TypeTag.interface
g_type_info_get_tag (glist_of _) = TypeTag.glist
g_type_info_get_tag (gslist_of _) = TypeTag.gslist
g_type_info_get_tag (array_of _ _ _ _) = TypeTag.array
g_type_info_get_tag (ghash_of _ _) = TypeTag.ghash

-- A GIArgument with what it points at. An address is a number; `word` is what is no pointer; the
-- elements of a list or an array are in the block that holds them; an instance has the test that
-- its own type passes.
mutual
  pub data Argument : Type 0 where
    null : Argument
    word : ℕ → Argument
    pointer : ℕ → Argument
    instance_at : ℕ → Kind → Argument
    block : ℕ → Arguments → Argument
    table : ℕ → Entries → Argument

  pub data Arguments : Type 0 where
    nil : Arguments
    cons : Argument → Arguments → Arguments

  pub data Entries : Type 0 where
    end : Entries
    entry : Argument → Argument → Entries → Entries

-- The function that frees.
pub data Free : Type 0 where
  g_free g_error_free g_object_unref g_param_spec_unref g_closure_unref g_boxed_free : Free
  g_value_unset g_variant_unref unref_function foreign_release g_list_free g_slist_free : Free
  g_strfreev g_array_unref g_array_free g_byte_array_unref g_ptr_array_free : Free
  g_hash_table_destroy : Free

abbrev pub Freed : Type 0
Freed = Free × ℕ

-- Whether it succeeded, and what was freed, in order.
abbrev pub Outcome : Type 0
Outcome = Bool × List Freed

abbrev pub done : Outcome
done = (true, [])

abbrev pub throws : Outcome
throws = (false, [])

abbrev pub address : Argument → Option ℕ
address null = none
address (word _) = none
address (pointer id) = some id
address (instance_at id _) = some id
address (block id _) = some id
address (table id _) = some id

abbrev pub items : Argument → Arguments
items (block _ elements) = elements
items _ = nil

abbrev pub entries : Argument → Entries
entries (table _ pairs) = pairs
entries _ = end

-- g_clear_pointer, which leaves a null pointer alone.
unfoldable pub clear : Free → Argument → Outcome
clear how arg = elim (address arg) [ none ↦ done | some id ↦ (true, (how, id) ∷ []) ]

-- Both succeeded; the second is done after the first in any case.
abbrev pub both : Outcome → Outcome → Outcome
both (ok, log) (ok', log') = (ok && ok', log ++ log')

abbrev pub take_items : ℕ → Arguments → Arguments
take_items zero elements = nil
take_items (suc n) nil = nil
take_items (suc n) (cons element rest) = cons element (take_items n rest)

-- The elements before a null pointer.
abbrev pub until_null : Arguments → Arguments
until_null nil = nil
until_null (cons null rest) = nil
until_null (cons element rest) = cons element (until_null rest)
