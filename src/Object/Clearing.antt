-- ===== src/Object/Clearing.antt =====
-- Clearing the toggles at shutdown (gjs_object_clear_toggles of gi/object.cpp).
use cjs.Prelude.{ℕ, zero, suc, ◌<◌, ◌≡◌, refl, ◌∙◌, true, some, List, [], ◌∷◌, ltb, arith, length}
use cjs.Toggle.{Item}
use cjs.Toggle.Laws.{idle_handle_toggle_more, idle_handle_toggle_end, pending}
use cjs.Object.Defs.{
  GLib, wrapper_is_rooted, toggle_handler, object_unref, handle, gjs_object_clear_toggles,
}
use cjs.Object.Invariant.{State, Inv}
use cjs.Object.Protocol.{handle_front, handle_empty}

module _ (glib : GLib) where
  open glib use {ref_count}

  clear_by :
      (q : List Item) (fuel : ℕ) (s : State glib)
      → s.0.q ≡ q
      → length q < fuel
      → Inv glib s
      → (t : State glib) × (gjs_object_clear_toggles glib fuel s ≡ some (t, true))
        × Inv glib t
        × (t.0.q ≡ [])
  unfolding gjs_object_clear_toggles handle
  clear_by q zero s e h v = elim h [ ]
  clear_by [] (suc fuel) s e h v = (
    s,
    idle_handle_toggle_end (toggle_handler glib) (object_unref glib true) fuel s.0 s.0 s.1 s.1
        (handle_empty glib s e),
    v,
    e,
  )
  clear_by (item ∷ rest) (suc fuel) s e h v =
      let (t, run, v', left) = handle_front glib item.direction s item rest refl v e in
      let (u, run', after, done) = clear_by rest fuel t left (omega arith) v' in
      (
        u,
        idle_handle_toggle_more (toggle_handler glib) (object_unref glib true) fuel s.0 t.0 s.1 t.1
              run
            ∙ run',
        after,
        done,
      )

  -- In a state that keeps the invariant, by which the context lives and every object has a wrapper that
  -- was not finalized, and with more fuel than there are items, if no other thread runs meanwhile:
  -- clearing the toggles fails no assertion and ends by its test with an empty queue; the wrapper of every object is then rooted exactly if something beside the wrapper holds a
  -- reference to the object.
  pub gjs_object_clear_toggles_lem :
      (fuel : ℕ) (s : State glib)
      → Inv glib s
      → length s.0.q < fuel
      → (t : State glib) × (gjs_object_clear_toggles glib fuel s ≡ some (t, true))
        × (t.0.q ≡ [])
        × ((g : ℕ) → wrapper_is_rooted (t.1.instances g) ≡ ltb 1 (ref_count t.1.heap g))
  unfolding pending
  gjs_object_clear_toggles_lem fuel s v h =
      let (t, run, v', done) = clear_by s.0.q fuel s refl h v in
      (t, run, done, λ g. (rw done at (v'.phase g)).1)
