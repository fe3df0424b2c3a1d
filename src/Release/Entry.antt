-- ===== src/Release/Entry.antt =====
-- The functions of gi/arg.cpp that other files call to release a value.
use cjs.Prelude.{ℕ, Bool, true, false, Option, none, some, if◌then◌else◌, ◌&&◌, not}
use cjs.Gi.{TypeTag, Transfer}
use cjs.Release.{
  TypeInfo, simple, glist_of, gslist_of, array_of, Argument, Arguments, nil, cons, g_free, Outcome,
  done, items, clear, both, take_items,
}
use cjs.Release.Needs.{type_needs_release, type_needs_out_release, is_gvalue_flat_array}
use cjs.Release.Internal.{
  transfer, transfer_in_nothing, and_then, each, unset_all, gjs_g_arg_release_internal,
}

abbrev pub is_transfer_nothing : Transfer → Bool
is_transfer_nothing Transfer.nothing = true
is_transfer_nothing _ = false

abbrev pub is_transfer_container : Transfer → Bool
is_transfer_container Transfer.container = true
is_transfer_container _ = false

unfoldable pub gjs_g_argument_release : Transfer → TypeInfo → Argument → Option Outcome
unfolding gjs_g_arg_release_internal
gjs_g_argument_release ownership type_info arg =
    if is_transfer_nothing ownership
    then some done
    else gjs_g_arg_release_internal type_info (transfer ownership) arg

unfoldable pub gjs_g_argument_release_in_arg : Transfer → TypeInfo → Argument → Option Outcome
unfolding gjs_g_arg_release_internal type_needs_release
gjs_g_argument_release_in_arg ownership type_info arg =
    if not (is_transfer_nothing ownership)
    then some done
    else if type_needs_release type_info
    then gjs_g_arg_release_internal type_info transfer_in_nothing arg
    else some done

-- The loop that ends at the first failure.
abbrev pub next_unless_failed : Option Outcome → Option Outcome → Option Outcome
next_unless_failed none rest = none
next_unless_failed (some (false, log)) rest = some (false, log)
next_unless_failed (some (true, log)) none = none
next_unless_failed (some (true, log)) (some end) = some (both (true, log) end)

unfoldable pub each_until_failure : (Argument → Option Outcome) → Arguments → Option Outcome
each_until_failure release nil = some done
each_until_failure release (cons element rest) =
    next_unless_failed (release element) (each_until_failure release rest)

-- The element type of a container, for the arrays of these two functions.
abbrev pub g_type_info_get_param_type : TypeInfo → TypeInfo
g_type_info_get_param_type (glist_of param) = param
g_type_info_get_param_type (gslist_of param) = param
g_type_info_get_param_type (array_of _ _ _ param) = param
g_type_info_get_param_type _ = simple TypeTag.void

unfoldable pub gjs_g_argument_release_in_array : Transfer → TypeInfo → ℕ → Argument → Option Outcome
unfolding gjs_g_arg_release_internal type_needs_release is_gvalue_flat_array each_until_failure each
    clear
gjs_g_argument_release_in_array ownership type_info length arg =
    let param_type = g_type_info_get_param_type type_info in
    let elements = take_items length (items arg) in
    if not (is_transfer_nothing ownership)
    then some done
    else and_then (if is_gvalue_flat_array param_type then unset_all elements else some done) (
        and_then
          (if type_needs_release param_type
            then each_until_failure (gjs_g_arg_release_internal param_type transfer_in_nothing)
                elements
            else some done)
          (some (clear g_free arg)))

unfoldable pub gjs_g_argument_release_out_array :
    Transfer → TypeInfo → ℕ → Argument → Option Outcome
unfolding gjs_g_arg_release_internal type_needs_out_release each clear
gjs_g_argument_release_out_array ownership type_info length arg =
    let param_type = g_type_info_get_param_type type_info in
    if is_transfer_nothing ownership
    then some done
    else and_then
        (if not (is_transfer_container ownership) && type_needs_out_release param_type
          then each (gjs_g_arg_release_internal param_type (transfer Transfer.everything))
              (take_items length (items arg))
          else some done)
        (some (clear g_free arg))
