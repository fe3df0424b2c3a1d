-- ===== src/Release/Cases.antt =====
-- The cases of gjs_g_arg_release_internal (gi/arg.cpp) that release no element by themselves.
use cjs.Prelude.{
  ℕ, ◌≡◌, refl, ap, ◌∙◌, Bool, true, false, Option, some, List, [], ◌∷◌, ◌++◌, map, if◌then◌else◌,
  arith,
}
use cjs.Gi.{TypeTag, InfoType, Transfer}
use cjs.Release.{
  Kind, Interface, null, word, pointer, instance_at, block, table, Arguments, nil, cons, Freed,
  Free, Outcome, clear, take_items, until_null, g_free,
}
use cjs.Release.Needs.{is_string, is_number, is_enum_or_flags}
use cjs.Release.Internal.{
  Mode, transfer, and_then, and_last, each, release_simple, release_instance, release_interface,
  is_structure, gtype_of,
}
use cjs.Release.Owned.{
  addresses, addresses_all, count, a_word, a_pointer, an_instance, all_shaped, none_null,
  is_releasable, is_foreign_struct,
}

abbrev pub ids : List Freed → List ℕ
ids log = map (λ freed. freed.1) log

-- An outcome that succeeded and freed these addresses.
abbrev pub Frees : Option Outcome → List ℕ → Type 0
Frees o freed = (log : List Freed) × (o ≡ some (true, log)) × (ids log ≡ freed)

ids-append : (xs ys : List Freed) → ids (xs ++ ys) ≡ ids xs ++ ids ys
ids-append [] ys = refl
ids-append (x ∷ xs) ys = ap (λ l. x.1 ∷ l) (ids-append xs ys)

pub Frees-and_then :
    {a b : Option Outcome} {xs ys : List ℕ}
    → Frees a xs
    → Frees b ys
    → Frees (and_then a b) (xs ++ ys)
Frees-and_then (l, e, h) (m, f, k) = (l ++ m, rw (e, f) refl, ids-append l m ∙ rw (h, k) refl)

pub Frees-and_last :
    {a b : Option Outcome} {xs ys : List ℕ}
    → Frees a xs
    → Frees b ys
    → Frees (and_last a b) (xs ++ ys)
Frees-and_last (l, e, h) (m, f, k) = (l ++ m, rw (e, f) refl, ids-append l m ∙ rw (h, k) refl)

pub Frees-if :
    {a b : Option Outcome} {xs : List ℕ} (c : Bool)
    → (c ≡ true → Frees a xs)
    → (c ≡ false → Frees b xs)
    → Frees (if c then a else b) xs
Frees-if true h k = h refl
Frees-if false h k = k refl

pub take_items-count : (elements : Arguments) → take_items (count elements) elements ≡ elements
take_items-count nil = refl
take_items-count (cons element rest) = ap (cons element) (take_items-count rest)

pub until_null-none :
    (elements : Arguments) → none_null elements ≡ true → until_null elements ≡ elements
until_null-none nil h = refl
until_null-none (cons null rest) h = absurd (ground arith)
until_null-none (cons (word n) rest) h = ap (cons (word n)) (until_null-none rest h)
until_null-none (cons (pointer id) rest) h = ap (cons (pointer id)) (until_null-none rest h)
until_null-none (cons (instance_at id k) rest) h =
    ap (cons (instance_at id k)) (until_null-none rest h)
until_null-none (cons (block id es) rest) h = ap (cons (block id es)) (until_null-none rest h)
until_null-none (cons (table id es) rest) h = ap (cons (table id es)) (until_null-none rest h)

-- A list whose elements are no pointers.
pub words : (elements : Arguments) → all_shaped a_word elements ≡ true → addresses_all elements ≡ []
unfolding addresses addresses_all
words nil h = refl
words (cons (word n) rest) h = words rest h
words (cons null rest) h = absurd (ground arith)
words (cons (pointer id) rest) h = absurd (ground arith)
words (cons (instance_at id k) rest) h = absurd (ground arith)
words (cons (block id es) rest) h = absurd (ground arith)
words (cons (table id es) rest) h = absurd (ground arith)

-- Elements that are pointers, or instances, each freed by one function.
pub Frees-pointers :
    (how : Free) (elements : Arguments)
    → all_shaped a_pointer elements ≡ true
    → Frees (each (λ element. some (clear how element)) elements) (addresses_all elements)
unfolding addresses addresses_all each clear
Frees-pointers how nil h = ([], refl, refl)
Frees-pointers how (cons (pointer id) rest) h =
    Frees-and_then ((how, id) ∷ [], refl, refl) (Frees-pointers how rest h)
Frees-pointers how (cons null rest) h = absurd (ground arith)
Frees-pointers how (cons (word n) rest) h = absurd (ground arith)
Frees-pointers how (cons (instance_at id k) rest) h = absurd (ground arith)
Frees-pointers how (cons (block id es) rest) h = absurd (ground arith)
Frees-pointers how (cons (table id es) rest) h = absurd (ground arith)

pub Frees-instances :
    (how : Free) (elements : Arguments)
    → all_shaped an_instance elements ≡ true
    → Frees (each (λ element. some (clear how element)) elements) (addresses_all elements)
unfolding addresses addresses_all each clear
Frees-instances how nil h = ([], refl, refl)
Frees-instances how (cons (instance_at id k) rest) h =
    Frees-and_then ((how, id) ∷ [], refl, refl) (Frees-instances how rest h)
Frees-instances how (cons null rest) h = absurd (ground arith)
Frees-instances how (cons (word n) rest) h = absurd (ground arith)
Frees-instances how (cons (pointer id) rest) h = absurd (ground arith)
Frees-instances how (cons (block id es) rest) h = absurd (ground arith)
Frees-instances how (cons (table id es) rest) h = absurd (ground arith)

pub all_shaped-none_null :
    (elements : Arguments) → all_shaped a_pointer elements ≡ true → none_null elements ≡ true
all_shaped-none_null nil h = refl
all_shaped-none_null (cons (pointer id) rest) h = all_shaped-none_null rest h
all_shaped-none_null (cons null rest) h = absurd (ground arith)
all_shaped-none_null (cons (word n) rest) h = absurd (ground arith)
all_shaped-none_null (cons (instance_at id k) rest) h = absurd (ground arith)
all_shaped-none_null (cons (block id es) rest) h = absurd (ground arith)
all_shaped-none_null (cons (table id es) rest) h = absurd (ground arith)

abbrev pub everything : Mode
everything = transfer Transfer.everything

-- Strings, whose tag decides what is done.
pub release_string :
    (tag : TypeTag) (id : ℕ)
    → is_string tag ≡ true
    → Frees (release_simple tag everything (pointer id)) (id ∷ [])
unfolding release_simple clear
release_string TypeTag.utf8 id h = ((g_free, id) ∷ [], refl, refl)
release_string TypeTag.filename id h = ((g_free, id) ∷ [], refl, refl)
release_string tag id h = absurd (ground arith)

pub release_no_string :
    (tag : TypeTag) → is_string tag ≡ true → Frees (release_simple tag everything null) []
unfolding release_simple clear
release_no_string TypeTag.utf8 h = ([], refl, refl)
release_no_string TypeTag.filename h = ([], refl, refl)
release_no_string tag h = absurd (ground arith)

pub release_number :
    (tag : TypeTag) (n : ℕ)
    → is_number tag ≡ true
    → Frees (release_simple tag everything (word n)) []
unfolding release_simple clear
release_number TypeTag.interface n h = absurd (ground arith)
release_number TypeTag.array n h = absurd (ground arith)
release_number TypeTag.glist n h = absurd (ground arith)
release_number TypeTag.gslist n h = absurd (ground arith)
release_number TypeTag.ghash n h = absurd (ground arith)
release_number TypeTag.utf8 n h = absurd (ground arith)
release_number TypeTag.filename n h = absurd (ground arith)
release_number TypeTag.error n h = absurd (ground arith)
release_number tag n h = ([], refl, refl)

release_kind :
    (kind : Kind) (is_pointer : Bool) (id : ℕ) (real : Kind)
    → is_releasable kind ≡ true
    → Frees (some (release_instance kind is_pointer everything (instance_at id real))) (id ∷ [])
unfolding release_instance clear
release_kind Kind.value true id real h = (_, refl, refl)
release_kind Kind.value false id real h = (_, refl, refl)
release_kind Kind.object is_pointer id real h = (_, refl, refl)
release_kind Kind.param is_pointer id real h = (_, refl, refl)
release_kind Kind.closure is_pointer id real h = (_, refl, refl)
release_kind Kind.boxed is_pointer id real h = (_, refl, refl)
release_kind Kind.variant is_pointer id real h = (_, refl, refl)
release_kind Kind.instantiatable is_pointer id real h = (_, refl, refl)
release_kind Kind.unregistered is_pointer id real h = absurd (ground arith)
release_kind Kind.other is_pointer id real h = absurd (ground arith)

enum-structure : (t : InfoType) → is_enum_or_flags t ≡ true → is_structure t ≡ false
enum-structure InfoType.structure h = absurd (ground arith)
enum-structure t h = ground (arith, h)

-- An interface, by what the tests of the source say of it.
module _ (is_pointer : Bool) (i : Interface) where
  pub Frees-instance :
      (id : ℕ) (kind : Kind)
      → is_foreign_struct i ≡ false
      → is_enum_or_flags i.info_type ≡ false
      → is_releasable (gtype_of i (instance_at id kind)) ≡ true
      → Frees (some (release_interface is_pointer i everything (instance_at id kind))) (id ∷ [])
  unfolding release_interface
  Frees-instance id kind foreign enum releasable =
      let (log, e, h) =
        release_kind (gtype_of i (instance_at id kind)) is_pointer id kind releasable in
      (log, rw (release_interface, foreign, enum) e, h)

  pub Frees-foreign :
      (id : ℕ) (kind : Kind)
      → is_foreign_struct i ≡ true
      → i.foreign_releases ≡ true
      → Frees (some (release_interface is_pointer i everything (instance_at id kind))) (id ∷ [])
  unfolding release_interface clear
  Frees-foreign id kind foreign releases =
      ((Free.foreign_release, id) ∷ [], rw (release_interface, foreign, releases) refl, refl)

  pub Frees-no_instance :
      is_foreign_struct i ≡ false → Frees (some (release_interface is_pointer i everything null)) []
  unfolding release_interface
  Frees-no_instance foreign = ([], ground (arith, foreign), refl)

  pub Frees-enum :
      (n : ℕ)
      → is_enum_or_flags i.info_type ≡ true
      → Frees (some (release_interface is_pointer i everything (word n))) []
  unfolding release_interface
  Frees-enum n enum = ([], ground (arith, enum, enum-structure i.info_type enum), refl)
