-- ===== src/Release/Owned.antt =====
-- The values of a type as GObject-Introspection lays them out, and all the addresses in a value.
use cjs.Prelude.{
  ℕ, suc, ◌≡◌, Bool, true, false, Option, some, List, [], ◌∷◌, ◌++◌, ◌&&◌, ◌||◌, not, ◌⊎◌,
}
use cjs.Gi.{TypeTag}
use cjs.Release.{
  Kind, Interface, TypeInfo, simple, interface_of, glist_of, gslist_of, array_of, ghash_of,
  ArrayType, c_array, g_array, ptr_array, byte_array, Argument, null, word, pointer, instance_at,
  block, table, Arguments, nil, cons, Entries, end, entry, g_type_info_get_tag,
}
use cjs.Release.Needs.{
  is_string, is_number, is_enum_or_flags, type_needs_out_release, is_gvalue_flat_array,
}
use cjs.Release.Internal.{gtype_of, is_structure, is_embedded, is_boxed_number, holds_pointers}

-- Every address in a value: those of the elements before that of what holds them.
unfoldable mutual
  pub addresses : Argument → List ℕ
  addresses null = []
  addresses (word _) = []
  addresses (pointer id) = id ∷ []
  addresses (instance_at id _) = id ∷ []
  addresses (block id elements) = addresses_all elements ++ id ∷ []
  addresses (table id pairs) = addresses_of_entries pairs ++ id ∷ []

  pub addresses_all : Arguments → List ℕ
  addresses_all nil = []
  addresses_all (cons element rest) = addresses element ++ addresses_all rest

  pub addresses_of_entries : Entries → List ℕ
  addresses_of_entries end = []
  addresses_of_entries (entry key val rest) =
      (addresses key ++ addresses val) ++ addresses_of_entries rest

abbrev pub count : Arguments → ℕ
count nil = 0
count (cons _ rest) = suc (count rest)

abbrev pub is_null : Argument → Bool
is_null null = true
is_null _ = false

-- Elements that are no pointers, that are plain pointers, and that are instances.
pub data Shape : Type 0 where
  a_word a_pointer an_instance : Shape

abbrev pub has_shape : Shape → Argument → Bool
has_shape a_word (word _) = true
has_shape a_pointer (pointer _) = true
has_shape an_instance (instance_at _ _) = true
has_shape _ _ = false

abbrev pub all_shaped : Shape → Arguments → Bool
all_shaped shape nil = true
all_shaped shape (cons element rest) = has_shape shape element && all_shaped shape rest

abbrev pub none_null : Arguments → Bool
none_null nil = true
none_null (cons element rest) = not (is_null element) && none_null rest

abbrev pub is_releasable : Kind → Bool
is_releasable Kind.unregistered = false
is_releasable Kind.other = false
is_releasable _ = true

abbrev pub is_foreign_struct : Interface → Bool
is_foreign_struct interface = is_structure interface.info_type && interface.is_foreign

-- An element type of pointers that are released one by one.
abbrev pub has_own_elements : TypeInfo → Bool
has_own_elements param =
    not (is_gvalue_flat_array param)
    && not (is_string (g_type_info_get_tag param))
    && not (is_number (g_type_info_get_tag param))
    && not (is_embedded param)
    && holds_pointers (g_type_info_get_tag param)
    && type_needs_out_release param

-- A value that has the shape of its type, with a releasable type for every instance in it. An array
-- of GArray holds numbers, or pointers that need a release.
mutual
  pub data Holds : TypeInfo → Argument → Type 0 where
    number : (tag : TypeTag) (n : ℕ) → is_number tag ≡ true → Holds (simple tag) (word n)
    string : (tag : TypeTag) (id : ℕ) → is_string tag ≡ true → Holds (simple tag) (pointer id)
    no_string : (tag : TypeTag) → is_string tag ≡ true → Holds (simple tag) null
    an_error : (id : ℕ) → Holds (simple TypeTag.error) (pointer id)
    no_error : Holds (simple TypeTag.error) null
    an_enum :
        (is_pointer : Bool) (i : Interface) (n : ℕ)
        → is_enum_or_flags i.info_type ≡ true
        → Holds (interface_of is_pointer i) (word n)
    instance_of :
        (is_pointer : Bool) (i : Interface) (id : ℕ) (kind : Kind)
        → is_foreign_struct i ≡ false
        → is_enum_or_flags i.info_type ≡ false
        → is_releasable (gtype_of i (instance_at id kind)) ≡ true
        → Holds (interface_of is_pointer i) (instance_at id kind)
    no_instance :
        (is_pointer : Bool) (i : Interface)
        → is_foreign_struct i ≡ false
        → Holds (interface_of is_pointer i) null
    foreign_of :
        (is_pointer : Bool) (i : Interface) (id : ℕ) (kind : Kind)
        → is_foreign_struct i ≡ true
        → i.foreign_releases ≡ true
        → Holds (interface_of is_pointer i) (instance_at id kind)
    a_list :
        (param : TypeInfo) (id : ℕ) (elements : Arguments)
        → HoldsAll param elements
        → Holds (glist_of param) (block id elements)
    no_list : (param : TypeInfo) → Holds (glist_of param) null
    an_slist :
        (param : TypeInfo) (id : ℕ) (elements : Arguments)
        → HoldsAll param elements
        → Holds (gslist_of param) (block id elements)
    no_slist : (param : TypeInfo) → Holds (gslist_of param) null
    no_array :
        (kind : ArrayType) (zero_terminated : Bool) (fixed_size : Option ℕ) (param : TypeInfo)
        → Holds (array_of kind zero_terminated fixed_size param) null
    flat_array :
        (zero_terminated : Bool) (param : TypeInfo) (id : ℕ) (elements : Arguments)
        → is_gvalue_flat_array param ≡ true
        → all_shaped an_instance elements ≡ true
        → Holds (array_of c_array zero_terminated (some (count elements)) param) (block id elements)
    string_array :
        (zero_terminated : Bool) (fixed_size : Option ℕ) (tag : TypeTag) (id : ℕ)
        (elements : Arguments)
        → is_string tag ≡ true
        → all_shaped a_pointer elements ≡ true
        → Holds (array_of c_array zero_terminated fixed_size (simple tag)) (block id elements)
    number_array :
        (zero_terminated : Bool) (fixed_size : Option ℕ) (tag : TypeTag) (id : ℕ)
        (elements : Arguments)
        → is_number tag ≡ true
        → all_shaped a_word elements ≡ true
        → Holds (array_of c_array zero_terminated fixed_size (simple tag)) (block id elements)
    pointer_array :
        (zero_terminated : Bool) (fixed_size : Option ℕ) (param : TypeInfo) (id : ℕ)
        (elements : Arguments)
        → has_own_elements param ≡ true
        → none_null elements ≡ true
        → (zero_terminated ≡ true)
          ⊎ ((zero_terminated ≡ false) × (fixed_size ≡ some (count elements)))
        → HoldsAll param elements
        → Holds (array_of c_array zero_terminated fixed_size param) (block id elements)
    number_g_array :
        (zero_terminated : Bool) (fixed_size : Option ℕ) (tag : TypeTag) (id : ℕ)
        (elements : Arguments)
        → is_number tag ≡ true
        → all_shaped a_word elements ≡ true
        → Holds (array_of g_array zero_terminated fixed_size (simple tag)) (block id elements)
    pointer_g_array :
        (zero_terminated : Bool) (fixed_size : Option ℕ) (param : TypeInfo) (id : ℕ)
        (elements : Arguments)
        → is_number (g_type_info_get_tag param) ≡ false
        → (is_string (g_type_info_get_tag param) || holds_pointers (g_type_info_get_tag param))
          ≡ true
        → type_needs_out_release param ≡ true
        → HoldsAll param elements
        → Holds (array_of g_array zero_terminated fixed_size param) (block id elements)
    a_ptr_array :
        (zero_terminated : Bool) (fixed_size : Option ℕ) (param : TypeInfo) (id : ℕ)
        (elements : Arguments)
        → HoldsAll param elements
        → Holds (array_of ptr_array zero_terminated fixed_size param) (block id elements)
    a_byte_array :
        (zero_terminated : Bool) (fixed_size : Option ℕ) (param : TypeInfo) (id : ℕ)
        → Holds (array_of byte_array zero_terminated fixed_size param) (pointer id)
    a_hash :
        (key val : TypeInfo) (id : ℕ) (pairs : Entries)
        → HoldsEntries key val pairs
        → Holds (ghash_of key val) (table id pairs)
    no_hash : (key val : TypeInfo) → Holds (ghash_of key val) null

  pub data HoldsAll : TypeInfo → Arguments → Type 0 where
    no_more : {param : TypeInfo} → HoldsAll param nil
    one_more :
        {param : TypeInfo} {element : Argument} {rest : Arguments}
        → Holds param element
        → HoldsAll param rest
        → HoldsAll param (cons element rest)

  -- A value of 64 bits is behind a pointer of its own.
  pub data HoldsEntries : TypeInfo → TypeInfo → Entries → Type 0 where
    no_entry : {key val : TypeInfo} → HoldsEntries key val end
    one_entry :
        {key val : TypeInfo} {k v : Argument} {rest : Entries}
        → Holds key k
        → is_boxed_number (g_type_info_get_tag val) ≡ false
        → Holds val v
        → HoldsEntries key val rest
        → HoldsEntries key val (entry k v rest)
    boxed_entry :
        {key val : TypeInfo} {k : Argument} {id : ℕ} {rest : Entries}
        → Holds key k
        → is_boxed_number (g_type_info_get_tag val) ≡ true
        → HoldsEntries key val rest
        → HoldsEntries key val (entry k (pointer id) rest)
