-- ===== src/Release/Keeping.antt =====
-- Outcomes of gi/arg.cpp in which no reference of an object is dropped.
use cjs.Prelude.{
  ℕ, ◌≡◌, refl, Bool, true, false, Option, none, some, List, [], ◌∷◌, ◌++◌, if◌then◌else◌, ◌&&◌,
  not, arith,
}
use cjs.Function.Order.{Every, Every-some, Every-none}
use cjs.Gi.{TypeTag}
use cjs.Release.{
  Kind, Interface, Argument, Arguments, nil, cons, Entries, end, entry, Freed, Free, g_free,
  g_closure_unref, g_boxed_free, g_value_unset, foreign_release, Outcome, done, throws, both, clear,
  address,
}
use cjs.Release.Needs.{is_enum_or_flags}
use cjs.Release.Internal.{
  transfer_in_nothing, and_then, and_last, replace_ok, each, each_last, each_entry, release_simple,
  release_instance, release_interface, is_structure, gtype_of,
}

-- The functions that drop a reference to what C may still own.
abbrev pub drops_object : Free → Bool
drops_object Free.g_error_free = true
drops_object Free.g_object_unref = true
drops_object Free.g_param_spec_unref = true
drops_object Free.g_variant_unref = true
drops_object Free.unref_function = true
drops_object _ = false

abbrev pub keeps_objects : List Freed → Bool
keeps_objects [] = true
keeps_objects ((how, _) ∷ log) = not (drops_object how) && keeps_objects log

abbrev pub Keeps : Outcome → Type 0
Keeps outcome = keeps_objects outcome.1 ≡ true

pub keeps_objects-append :
    (xs ys : List Freed)
    → keeps_objects xs ≡ true
    → keeps_objects ys ≡ true
    → keeps_objects (xs ++ ys) ≡ true
keeps_objects-append [] ys h k = k
keeps_objects-append (x ∷ xs) ys h k =
    ground (arith, h, keeps_objects-append xs ys (ground (arith, h)) k)

abbrev pub Safe : Option Outcome → Type 0
Safe o = Every o Keeps

pub Safe-and_then : (a b : Option Outcome) → Safe a → Safe b → Safe (and_then a b)
Safe-and_then none b h k = Every-none Keeps
Safe-and_then (some a) none h k = Every-none Keeps
Safe-and_then (some a) (some b) h k =
    Every-some Keeps (both a b) (keeps_objects-append a.1 b.1 (h a refl) (k b refl))

pub Safe-and_last : (a b : Option Outcome) → Safe a → Safe b → Safe (and_last a b)
Safe-and_last none b h k = Every-none Keeps
Safe-and_last (some a) none h k = Every-none Keeps
Safe-and_last (some a) (some b) h k =
    Every-some Keeps (replace_ok a b) (keeps_objects-append a.1 b.1 (h a refl) (k b refl))

pub Safe-done : Safe (some done)
Safe-done = Every-some Keeps done refl

cleared-Safe :
    (how : Free) (o : Option ℕ)
    → drops_object how ≡ false
    → Safe (some (elim o [ none ↦ done | some id ↦ (true, (how, id) ∷ []) ]))
cleared-Safe how none h = Safe-done
cleared-Safe how (some id) h = Every-some Keeps (true, (how, id) ∷ []) (ground (arith, h))

pub Safe-clear :
    (how : Free) (arg : Argument) → drops_object how ≡ false → Safe (some (clear how arg))
unfolding clear
Safe-clear how arg h = cleared-Safe how (address arg) h

pub each-Safe :
    (release : Argument → Option Outcome) (elements : Arguments)
    → ((arg : Argument) → Safe (release arg))
    → Safe (each release elements)
unfolding each
each-Safe release nil h = Safe-done
each-Safe release (cons element rest) h =
    Safe-and_then (release element) (each release rest) (h element) (each-Safe release rest h)

pub each_last-Safe :
    (release : Argument → Option Outcome) (elements : Arguments)
    → ((arg : Argument) → Safe (release arg))
    → Safe (each_last release elements)
unfolding each_last
each_last-Safe release nil h = Safe-done
each_last-Safe release (cons element nil) h = h element
each_last-Safe release (cons element (cons next rest)) h =
    Safe-and_last (release element) (each_last release (cons next rest)) (h element)
      (each_last-Safe release (cons next rest) h)

pub each_entry-Safe :
    (key val : Argument → Option Outcome) (pairs : Entries)
    → ((arg : Argument) → Safe (key arg))
    → ((arg : Argument) → Safe (val arg))
    → Safe (each_entry key val pairs)
unfolding each_entry
each_entry-Safe key val end h k = Safe-done
each_entry-Safe key val (entry a b rest) h k =
    Safe-and_then (and_then (key a) (val b)) (each_entry key val rest)
      (Safe-and_then (key a) (val b) (h a) (k b)) (each_entry-Safe key val rest h k)

pub release_simple-Safe :
    (tag : TypeTag) (arg : Argument) → Safe (release_simple tag transfer_in_nothing arg)
unfolding release_simple
release_simple-Safe TypeTag.utf8 arg = Safe-clear g_free arg refl
release_simple-Safe TypeTag.filename arg = Safe-clear g_free arg refl
release_simple-Safe TypeTag.interface arg = Every-none Keeps
release_simple-Safe TypeTag.array arg = Every-none Keeps
release_simple-Safe TypeTag.glist arg = Every-none Keeps
release_simple-Safe TypeTag.gslist arg = Every-none Keeps
release_simple-Safe TypeTag.ghash arg = Every-none Keeps
release_simple-Safe _ arg = Safe-done

pub Safe-throws : Safe (some throws)
Safe-throws = Every-some Keeps throws refl

release_instance-Safe :
    (kind : Kind) (is_pointer : Bool) (arg : Argument)
    → Safe (some (release_instance kind is_pointer transfer_in_nothing arg))
unfolding release_instance
release_instance-Safe Kind.closure is_pointer arg = Safe-clear g_closure_unref arg refl
release_instance-Safe Kind.value true arg = Safe-clear g_boxed_free arg refl
release_instance-Safe Kind.value false arg = Safe-clear g_value_unset arg refl
release_instance-Safe Kind.other is_pointer arg = Safe-throws
release_instance-Safe _ is_pointer arg = Safe-done

interface-Safe :
    (foreign enum : Bool) (o : Option ℕ) (x y : Outcome)
    → Safe (some x)
    → Safe (some y)
    → Safe
        (some (if foreign then x else if enum then done else elim o [ none ↦ done | some _ ↦ y ]))
interface-Safe true enum o x y h k = h
interface-Safe false true o x y h k = Safe-done
interface-Safe false false none x y h k = Safe-done
interface-Safe false false (some id) x y h k = k

pub release_interface-Safe :
    (is_pointer : Bool) (i : Interface) (arg : Argument)
    → Safe (some (release_interface is_pointer i transfer_in_nothing arg))
unfolding release_interface
release_interface-Safe is_pointer i arg =
    interface-Safe (is_structure i.info_type && i.is_foreign) (is_enum_or_flags i.info_type)
      (address arg) (both (i.foreign_releases, []) (clear foreign_release arg))
      (release_instance (gtype_of i arg) is_pointer transfer_in_nothing arg)
      (Safe-and_then (some (i.foreign_releases, [])) (some (clear foreign_release arg))
        (Every-some Keeps (i.foreign_releases, []) refl) (Safe-clear foreign_release arg refl))
      (release_instance-Safe (gtype_of i arg) is_pointer arg)

pub clears-Safe :
    (how : Free) (arg : Argument) (o : Option Outcome)
    → drops_object how ≡ false
    → Safe o
    → Safe (and_then o (some (clear how arg)))
clears-Safe how arg o h k = Safe-and_then o (some (clear how arg)) k (Safe-clear how arg h)
