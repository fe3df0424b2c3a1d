-- ===== src/Release/Examples.antt =====
-- A hash table from strings to lists of objects, released by gi/arg.cpp.
use cjs.Prelude.{refl, true, false, [], ◌∷◌}
use cjs.Function.Order.{Every}
use cjs.Gi.{TypeTag, InfoType, Transfer}
use cjs.Release.{
  Kind, Interface, TypeInfo, simple, interface_of, glist_of, ghash_of, Argument, pointer,
  instance_at, block, table, Arguments, nil, cons, end, entry,
}
use cjs.Release.Entry.{gjs_g_argument_release, gjs_g_argument_release_in_arg}
use cjs.Release.Owned.{
  addresses, Holds, string, instance_of, a_list, a_hash, no_more, one_more, no_entry, one_entry,
}
use cjs.Release.Cases.{Frees}
use cjs.Release.Once.{gjs_g_argument_release_lem}
use cjs.Release.Keeping.{Keeps}
use cjs.Release.Borrowed.{gjs_g_argument_release_in_arg_lem}
use cjs.Release.Shell.{gjs_g_argument_release-container}

abbrev an_object : Interface
an_object = record {
  info_type = InfoType.object;
  gtype = Kind.object;
  has_type_instances = true;
  is_foreign = false;
  foreign_releases = false;
}

abbrev object_lists : TypeInfo
object_lists = ghash_of (simple TypeTag.utf8) (glist_of (interface_of true an_object))

abbrev two_objects : Arguments
two_objects = cons (instance_at 11 Kind.object) (cons (instance_at 12 Kind.object) nil)

abbrev one_pair : Argument
one_pair = table 13 (entry (pointer 9) (block 10 two_objects) end)

one_pair-Holds : Holds object_lists one_pair
one_pair-Holds = a_hash (simple TypeTag.utf8) (glist_of (interface_of true an_object)) 13 _ (
    one_entry (string TypeTag.utf8 9 refl) refl
      (a_list (interface_of true an_object) 10 _ (
        one_more (instance_of true an_object 11 Kind.object refl refl refl)
          (one_more (instance_of true an_object 12 Kind.object refl refl refl) no_more)))
      no_entry)

gjs_g_argument_release_lem_example :
    Frees
      (gjs_g_argument_release Transfer.everything object_lists one_pair)
      (9 ∷ 11 ∷ 12 ∷ 10 ∷ 13 ∷ [])
unfolding addresses
gjs_g_argument_release_lem_example = gjs_g_argument_release_lem object_lists one_pair one_pair-Holds

gjs_g_argument_release-container_example :
    Frees (gjs_g_argument_release Transfer.container object_lists one_pair) (13 ∷ [])
gjs_g_argument_release-container_example =
    gjs_g_argument_release-container object_lists one_pair refl one_pair-Holds

gjs_g_argument_release_in_arg_lem_example :
    Every (gjs_g_argument_release_in_arg Transfer.nothing object_lists one_pair) Keeps
gjs_g_argument_release_in_arg_lem_example =
    gjs_g_argument_release_in_arg_lem Transfer.nothing object_lists one_pair refl
