-- ===== src/Object/Defs.antt =====
-- The toggle notifications of gi/object.cpp, over the wrapper of cjs/jsapi-util-root.h and the queue
-- of gi/toggle.cpp.
use cjs.Prelude.Options.{◌>>=◌}
use cjs.Prelude.{
  ℕ, suc, ◌-◌, ◌<◌, ◌≡◌, Bool, true, false, Option, none, some, if◌then◌else◌, ◌==◌, ◌&&◌, ◌||◌,
  not,
}
use cjs.Root.{MaybeOwned, rooted, is_nullptr, switch_to_rooted, switch_to_unrooted}
use cjs.Toggle.{
  Direction, down, up, ToggleQueue, is_queued, enqueue, handle_toggle, idle_handle_toggle,
}

-- What gi/object.cpp uses of GLib: reference counts, and the id of an idle source, which is not 0.
pub record GLib : Type 1 where
  pub Heap : Type 0
  pub ref_count : Heap → ℕ → ℕ
  pub ref : ℕ → Heap → Heap
  pub unref : ℕ → Heap → Heap
  pub idle_source : ℕ
  pub ref_count-ref :
      (g : ℕ) (h : Heap) (j : ℕ)
      → ref_count (ref g h) j ≡ (if g == j then suc (ref_count h j) else ref_count h j)
  pub ref_count-unref :
      (g : ℕ) (h : Heap) (j : ℕ)
      → ref_count (unref g h) j ≡ (if g == j then ref_count h j - 1 else ref_count h j)
  pub idle_source_pos : 0 < idle_source

-- `in_qdata` says that the instance is the private data of its GObject, where for_gobject finds it.
pub record ObjectInstance : Type 0 where
  pub in_qdata : Bool
  pub wrapper : MaybeOwned
  pub uses_toggle_ref : Bool
  pub gobj_disposed : Bool
  pub wrapper_finalized : Bool

unfoldable pub has_wrapper : ObjectInstance → Bool
unfolding is_nullptr
has_wrapper i = not (is_nullptr i.wrapper)

unfoldable pub wrapper_is_rooted : ObjectInstance → Bool
unfolding rooted
wrapper_is_rooted i = rooted i.wrapper

abbrev with_wrapper : ObjectInstance → Option MaybeOwned → Option ObjectInstance
with_wrapper i none = none
with_wrapper i (some m) = some (record i { wrapper = m })

abbrev scheduling : Bool → Option ObjectInstance → Option (ObjectInstance × Bool)
scheduling gc none = none
scheduling gc (some i) = some (i, gc)

-- `none` is the assertion that there is no wrapper.
unfoldable pub check_js_object_finalized : ObjectInstance → Option ObjectInstance
unfolding has_wrapper
check_js_object_finalized i =
    if not i.uses_toggle_ref
    then some i
    else if i.wrapper_finalized
    then (if has_wrapper i then none else some (record i { wrapper_finalized = false }))
    else some i

-- `none` is also the null pointer, which the callers use without a test.
unfoldable pub for_gobject : ObjectInstance → Option ObjectInstance
unfolding check_js_object_finalized
for_gobject i = if i.in_qdata then check_js_object_finalized i else none

-- The Boolean says that a garbage collection was scheduled. There is a current context, which the
-- source takes here without a test.
unfoldable pub toggle_down : Bool → ObjectInstance → Option (ObjectInstance × Bool)
unfolding wrapper_is_rooted switch_to_unrooted
toggle_down destroying i =
    if wrapper_is_rooted i
    then scheduling (not destroying) (with_wrapper i (switch_to_unrooted true i.wrapper))
    else some (i, false)

unfoldable pub toggle_up : ObjectInstance → Option ObjectInstance
unfolding has_wrapper wrapper_is_rooted switch_to_rooted
toggle_up i =
    if not (has_wrapper i)
    then some i
    else if not (wrapper_is_rooted i)
    then with_wrapper i (switch_to_rooted true i.wrapper none)
    else some i

abbrev pub update {ℓ} : {A : Type ℓ} → (ℕ → A) → ℕ → A → ℕ → A
update f g a j = if g == j then a else f j

-- The address of `toggle_handler`, which every enqueue is given.
abbrev pub toggle_handler_ptr : ℕ
toggle_handler_ptr = 1

module _ (glib : GLib) where
  open glib use {Heap, ref_count, ref, unref, idle_source}

  -- What the handler of the queue works on: the instances by their GObject, and the context.
  pub record World : Type 0 where
    pub heap : Heap
    pub instances : ℕ → ObjectInstance
    pub destroying : Bool
    pub gc_scheduled : Bool

  unfoldable pub toggle_handler : ℕ → Direction → World → Option World
  unfolding for_gobject toggle_down toggle_up
  toggle_handler g up w = elim (for_gobject (w.instances g) >>= toggle_up) [
    | none ↦ none
    | some i ↦ some (record w { instances = update w.instances g i })
  ]
  toggle_handler g down w = elim (for_gobject (w.instances g) >>= toggle_down w.destroying) [
    | none ↦ none
    | some (i, gc) ↦
        some (record w { instances = update w.instances g i; gc_scheduled = w.gc_scheduled || gc })
  ]

  abbrev enqueued : ℕ → World → Option (ToggleQueue × Bool) → Option (ToggleQueue × World)
  enqueued g w none = none
  enqueued g w (some (q, took_ref)) =
      some (q, if took_ref then record w { heap = ref g w.heap } else w)

  abbrev toggled : ToggleQueue → Option World → Option (ToggleQueue × World)
  toggled q none = none
  toggled q (some w) = some (q, w)

  -- The callback that GObject makes when the count goes from 2 to 1, `is_last_ref`, or from 1 to 2.
  -- It is one step, although the queue is locked once for the look and once for the enqueue: what it
  -- sees is used on the main thread alone, the only one that takes toggles out.
  unfoldable pub wrapped_gobj_toggle_notify :
      Bool → ℕ → Bool → ToggleQueue × World → Option (ToggleQueue × World)
  wrapped_gobj_toggle_notify is_main_thread g is_last_ref (q, w) =
      let (toggle_down_queued, toggle_up_queued) = is_queued g q in
      if w.destroying
      then some (q, w)
      else if is_last_ref
      then (if is_main_thread
          then (if toggle_up_queued || toggle_down_queued
              then none
              else toggled q (toggle_handler g down w))
          else enqueued g w (enqueue idle_source q g down toggle_handler_ptr))
      else (if is_main_thread && not toggle_down_queued
          then (if toggle_up_queued then none else toggled q (toggle_handler g up w))
          else enqueued g w (enqueue idle_source q g up toggle_handler_ptr))

  -- GObject's side of the protocol: a reference is taken or dropped, and the notification follows
  -- before anything else happens. Where another thread runs in between, the two parts are steps of
  -- their own, as in Race.
  unfoldable pub object_ref : Bool → ℕ → ToggleQueue × World → Option (ToggleQueue × World)
  object_ref main g (q, w) =
      let w' = record w { heap = ref g w.heap } in
      if ref_count w.heap g == 1
      then wrapped_gobj_toggle_notify main g false (q, w')
      else some (q, w')

  unfoldable pub object_unref : Bool → ℕ → ToggleQueue × World → Option (ToggleQueue × World)
  object_unref main g (q, w) =
      let w' = record w { heap = unref g w.heap } in
      if ref_count w.heap g == 2
      then wrapped_gobj_toggle_notify main g true (q, w')
      else some (q, w')

  -- One round of the idle loop, or of gjs_object_clear_toggles, on the main thread.
  unfoldable pub handle : ToggleQueue × World → Option ((ToggleQueue × World) × Bool)
  handle (q, w) = handle_toggle toggle_handler (object_unref true) q w

  -- At shutdown: `while (toggle_queue.handle_toggle(toggle_handler));` with fuel.
  unfoldable pub gjs_object_clear_toggles :
      ℕ → ToggleQueue × World → Option ((ToggleQueue × World) × Bool)
  unfolding idle_handle_toggle
  gjs_object_clear_toggles fuel (q, w) =
      idle_handle_toggle toggle_handler (object_unref true) fuel q w
