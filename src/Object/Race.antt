-- ===== src/Object/Race.antt =====
-- What happens where the main thread runs between the change of a reference count in another thread
-- and the notification of it (wrapped_gobj_toggle_notify of gi/object.cpp).
use cjs.Prelude.Options.{◌>>=◌}
use cjs.Prelude.{ℕ, true, false, Option}
use cjs.Object.Defs.{GLib, wrapped_gobj_toggle_notify, object_ref, object_unref}
use cjs.Object.Invariant.{State}

module _ (glib : GLib) where
  open glib use {
    Heap, ref_count, ref, unref, idle_source, ref_count-ref, ref_count-unref, idle_source_pos,
  }

  -- Another thread lowers the count; the main thread takes a reference; the other thread delivers
  -- its notification; the main thread drops its reference.
  abbrev pub preempted_unref : ℕ → State glib → Option (State glib)
  preempted_unref g (q, w) = do
    s1 ← object_ref glib true g (q, record w { heap = unref g w.heap })
    s2 ← wrapped_gobj_toggle_notify glib false g true s1
    object_unref glib true g s2

  abbrev continue_at : ℕ → State glib → Option (State glib)
  continue_at g s = wrapped_gobj_toggle_notify glib false g true s >>= object_unref glib true g
