-- ===== src/Root.antt =====
-- GjsMaybeOwned (cjs/jsapi-util-root.h): a wrapper that holds a garbage-collected thing either
-- rooted, or in a heap slot that is traced or weak. A failed `g_assert` is `none`. `has_context` says
-- whether gjs_context_get_current() gives a context at the time of the call, which a notifier asserts
-- when it is made, and when it is destroyed while it is connected.
pub mod Refinement
mod Examples
use cjs.Prelude.Options.{◌>>=◌}
use cjs.Prelude.{
  ℕ, ◌≡◌, refl, Bool, true, false, Option, none, some, arith, if◌then◌else◌, ◌==◌, not, ◌&&◌,
}

-- A pointer to a GC thing; `none` is the null pointer, which is also `JS::SafelyInitialized`.
abbrev pub Thing : Type 0
Thing = Option ℕ

abbrev pub is_null : Thing → Bool
is_null none = true
is_null (some _) = false

-- `connected` says that `m_parent` is set, and so that the weak reference on the context is.
pub record Notifier : Type 0 where
  pub connected : Bool
  pub func : ℕ
  pub user_data : ℕ

pub record MaybeOwned : Type 0 where
  pub heap : Thing
  pub root : Option Thing
  pub notify : Option Notifier

-- The destroy notification that `root` and `switch_to_rooted` may be given, with its data.
abbrev pub Notify : Type 0
Notify = Option (ℕ × ℕ)

unfoldable pub new : MaybeOwned
new = record { heap = none; root = none; notify = none }

abbrev pub is_some {ℓ} : {A : Type ℓ} → Option A → Bool
is_some none = false
is_some (some _) = true

unfoldable pub rooted : MaybeOwned → Bool
rooted m = is_some m.root

abbrev stored : Option Thing → Thing → Thing
stored (some t) heap = t
stored none heap = heap

unfoldable pub get : MaybeOwned → Thing
get m = stored m.root m.heap

-- The comparison with the null pointer.
unfoldable pub is_nullptr : MaybeOwned → Bool
is_nullptr m = is_null (stored m.root m.heap)

-- The constructor of Notifier, if a notification is given.
unfoldable pub new_notifier : (has_context : Bool) → Notify → Option (Option Notifier)
new_notifier has_context none = some none
new_notifier true (some (func, user_data)) =
    some (some (record { connected = true; func = func; user_data = user_data }))
new_notifier false (some _) = none

-- The destructor, which disconnects: whether its assertion holds.
unfoldable pub disconnect : (has_context : Bool) → Option Notifier → Bool
disconnect has_context none = true
disconnect has_context (some n) = if not n.connected then true else has_context

unfoldable pub root_thing : (has_context : Bool) → MaybeOwned → Thing → Notify → Option MaybeOwned
unfolding rooted new_notifier
root_thing has_context m thing notify =
    if rooted m
    then none
    else if is_null m.heap
    then (elim (new_notifier has_context notify) [
      | none ↦ none
      | some n ↦ some (record { heap = none; root = some thing; notify = n })
    ])
    else none

unfoldable pub assign : MaybeOwned → Thing → Option MaybeOwned
unfolding rooted
assign m thing = if rooted m then none else some (record m { heap = thing })

unfoldable pub teardown_rooting : (has_context : Bool) → MaybeOwned → Option MaybeOwned
unfolding rooted disconnect
teardown_rooting has_context m =
    if rooted m
    then (if disconnect has_context m.notify
        then some (record { heap = none; root = none; notify = none })
        else none)
    else none

unfoldable pub reset : (has_context : Bool) → MaybeOwned → Option MaybeOwned
unfolding rooted teardown_rooting
reset has_context m =
    if not (rooted m) then some (record m { heap = none }) else teardown_rooting has_context m

abbrev pub g_assert : Bool → MaybeOwned → Option MaybeOwned
g_assert true m = some m
g_assert false m = none

unfoldable pub switch_to_rooted : (has_context : Bool) → MaybeOwned → Notify → Option MaybeOwned
unfolding rooted reset root_thing
switch_to_rooted has_context m notify = do
  m0 ← g_assert (not (rooted m)) m
  let thing = m0.heap
  m1 ← reset has_context m0
  m2 ← root_thing has_context m1 thing notify
  g_assert (rooted m2) m2

unfoldable pub switch_to_unrooted : (has_context : Bool) → MaybeOwned → Option MaybeOwned
unfolding rooted reset
switch_to_unrooted has_context m = do
  m0 ← g_assert (rooted m) m
  let thing = stored m0.root m0.heap
  m1 ← reset has_context m0
  let m2 = record m1 { heap = thing }
  g_assert (not (rooted m2)) m2

-- The thing is exposed to the collector, which the slot does not show.
unfoldable pub prevent_collection : MaybeOwned → Option MaybeOwned
unfolding rooted
prevent_collection m = if rooted m then none else some m

-- `swept` is what JS_UpdateWeakPointerAfterGC makes of the slot; the result says whether the thing
-- was finalized.
unfoldable pub update_after_gc : (Thing → Thing) → MaybeOwned → Option (MaybeOwned × Bool)
unfolding rooted
update_after_gc swept m =
    if rooted m then none else some (record m { heap = swept m.heap }, is_null (swept m.heap))

-- The weak notification of the context: the notifier forgets its parent, and the callback is given
-- the handle, which must be rooted. `none` is also the use of a parent that is gone. The second part
-- is the call that is made.
unfoldable pub on_context_destroy : MaybeOwned → Option (MaybeOwned × (Thing × ℕ × ℕ))
on_context_destroy m = do
  n ← m.notify
  thing ← m.root
  if not n.connected
      then none
      else some (
        record m { notify = some (record n { connected = false }) },
        (thing, n.func, n.user_data),
      )
