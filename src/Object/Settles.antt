-- ===== src/Object/Settles.antt =====
-- Changes of the state for one object that keep the invariant: the count alone, the mode of the
-- wrapper, and an enqueue (gi/object.cpp).
use cjs.Prelude.{ℕ, ◌≡◌, refl, Bool, true, false, some, [], ◌∷◌, ◌++◌, ◌==◌, ◌||◌, not, ==_refl}
use cjs.Toggle.{Direction, down, up, ToggleQueue, is_up, enqueue}
use cjs.Toggle.Laws.{pending, pending-append}
use cjs.Object.Defs.{
  GLib, World, ObjectInstance, wrapper_is_rooted, update, toggle_handler_ptr, toggle_handler,
}
use cjs.Object.Phases.{IsIn, toggle_down_rooted, toggle_up_unrooted, for_gobject-IsHeld}
use cjs.Object.Invariant.{Phase, enqueue_open, State, Inv, Settles}

module _ (glib : GLib) where
  open glib use {
    ref_count, ref, unref, idle_source, ref_count-ref, ref_count-unref, idle_source_pos,
  }

  -- The handler, on an instance in the other mode, switches it and keeps all else.
  pub handler_down :
      (g : ℕ) (w : World glib)
      → IsIn true (w.instances g)
      → (i : ObjectInstance) × (gc : Bool) × (toggle_handler glib g down w
          ≡ some (record w { instances = update w.instances g i; gc_scheduled = gc }))
        × IsIn false i
  unfolding toggle_handler
  handler_down g w h =
      let (i, e, h') = toggle_down_rooted w.destroying (w.instances g) h in
      (
        i,
        w.gc_scheduled || not w.destroying,
        rw (toggle_handler, for_gobject-IsHeld (w.instances g) h.held, e) refl,
        h',
      )

  pub handler_up :
      (g : ℕ) (w : World glib)
      → IsIn false (w.instances g)
      → (i : ObjectInstance) × (toggle_handler glib g up w
          ≡ some (record w { instances = update w.instances g i }))
        × IsIn true i
  unfolding toggle_handler
  handler_up g w h =
      let (i, e, h') = toggle_up_unrooted (w.instances g) h in
      (i, rw (toggle_handler, for_gobject-IsHeld (w.instances g) h.held, e) refl, h')

  -- A change of the heap that leaves the counts of the other objects.
  abbrev pub Touches : ℕ → glib.Heap → glib.Heap → Type 0
  Touches g heap heap' = (j : ℕ) → (g == j) ≡ false → ref_count heap' j ≡ ref_count heap j

  pub ref-Touches : (g : ℕ) (heap : glib.Heap) → Touches g heap (ref g heap)
  ref-Touches g heap j e = rw (ref_count-ref g heap j, e)

  pub unref-Touches : (g : ℕ) (heap : glib.Heap) → Touches g heap (unref g heap)
  unref-Touches g heap j e = rw (ref_count-unref g heap j, e)

  pub twice_Touches : (g : ℕ) (heap : glib.Heap) → Touches g heap (ref g (ref g heap))
  twice_Touches g heap j e = rw (ref_count-ref g (ref g heap) j, e) (ref-Touches g heap j e)

  abbrev pub with_heap : glib.Heap → State glib → State glib
  with_heap heap s = (s.0, record s.1 { heap = heap })

  pub kept_Settles :
      (g : ℕ) (s : State glib) (heap : glib.Heap)
      → Inv glib s
      → Touches g s.1.heap heap
      → Phase (pending g s.0.q) (ref_count heap g) (wrapper_is_rooted (s.1.instances g))
      → Settles glib g s (with_heap heap s)
  kept_Settles g s heap v touches ph = record {
    living = refl;
    queue = v.queue;
    held = v.held g;
    phase = ph;
    others = λ j e. (refl, touches j e, refl);
  }

  pub switched_Settles :
      (g : ℕ) (s : State glib) (heap : glib.Heap) (i : ObjectInstance) (gc : Bool) {b : Bool}
      → Inv glib s
      → Touches g s.1.heap heap
      → IsIn b i
      → Phase (pending g s.0.q) (ref_count heap g) b
      → Settles glib g s
          (s.0, record s.1 { heap = heap; instances = update s.1.instances g i; gc_scheduled = gc })
  switched_Settles g s heap i gc v touches h ph = record {
    living = refl;
    queue = v.queue;
    held = rw (==_refl g) h.held;
    phase = rw (==_refl g, h.mode) ph;
    others = λ j e. (refl, touches j e, rw e);
  }

  pub enqueued_Settles :
      (g : ℕ) (s : State glib) (heap : glib.Heap) (d : Direction)
      → Inv glib s
      → Touches g s.1.heap heap
      → Phase (pending g s.0.q ++ d ∷ []) (ref_count heap g) (wrapper_is_rooted (s.1.instances g))
      → (q : ToggleQueue) × (enqueue idle_source s.0 g d toggle_handler_ptr ≡ some (q, is_up d))
        × Settles glib g s (q, record s.1 { heap = heap })
  enqueued_Settles g s heap d v touches ph =
      let (q, e, open', e_q) = enqueue_open idle_source s.0 g d idle_source_pos v.queue in
      (
        q,
        e,
        record {
          living = refl;
          queue = open';
          held = v.held g;
          phase = rw (e_q, pending-append, ==_refl g) ph;
          others = λ j n. (rw (e_q, pending-append, n), touches j n, refl);
        },
      )
