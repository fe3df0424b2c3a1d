-- ===== src/Object/Notify.antt =====
-- wrapped_gobj_toggle_notify (gi/object.cpp) as references are taken and dropped.
use cjs.Prelude.{
  ℕ, suc, ◌+◌, ◌-◌, ◌<◌, ◌≡◌, refl, Bool, true, false, Option, some, List, [], ◌∷◌, ◌==◌, arith,
  inl, inr, Bool-cases, ==_iff, ==_refl,
}
use cjs.Toggle.{Direction, down, up}
use cjs.Toggle.Laws.{pending, is_queued_lem}
use cjs.Object.Defs.{
  GLib, wrapper_is_rooted, update, wrapped_gobj_toggle_notify, object_ref, object_unref,
}
use cjs.Object.Invariant.{Phase, State, Inv, Settles}
use cjs.Object.Settles.{
  handler_down, handler_up, ref-Touches, unref-Touches, twice_Touches, with_heap, kept_Settles,
  switched_Settles, enqueued_Settles,
}

-- The references that the queue holds to an object.
abbrev pub queue_refs : List Direction → ℕ
queue_refs [] = 0
queue_refs (up ∷ ds) = suc (queue_refs ds)
queue_refs (down ∷ ds) = queue_refs ds

module _ (glib : GLib) where
  open glib use {
    ref_count, ref, unref, idle_source, ref_count-ref, ref_count-unref, idle_source_pos,
  }

  abbrev pub Outcome : ℕ → State glib → Option (State glib) → Type 0
  Outcome g s r = (t : State glib) × (r ≡ some t) × Settles glib g s t

  -- The notification of the last reference, with nothing queued.
  pub last_ref :
      (main : Bool) (g : ℕ) (s : State glib)
      → Inv glib s
      → pending g s.0.q ≡ []
      → wrapper_is_rooted (s.1.instances g) ≡ true
      → ref_count s.1.heap g ≡ 2
      → Outcome g s
          (wrapped_gobj_toggle_notify glib main g true (with_heap glib (unref g s.1.heap) s))
  unfolding wrapped_gobj_toggle_notify
  last_ref true g s v e m c =
      let heap' : glib.Heap = unref g s.1.heap in
      let (i, gc, run, h) =
        handler_down glib g (record s.1 { heap = heap' }) (record { held = v.held g; mode = m }) in
      (
        (s.0, record s.1 { heap = heap'; instances = update s.1.instances g i; gc_scheduled = gc }),
        ground (arith, is_queued_lem g s.0, v.living, run),
        switched_Settles glib g s heap' i gc v (unref-Touches glib g s.1.heap) h
            (rw (e, ref_count-unref, ==_refl g, c) (omega arith, refl)),
      )
  last_ref false g s v e m c =
      let heap' : glib.Heap = unref g s.1.heap in
      let (q, run, settled) =
        enqueued_Settles glib g s heap' down v (unref-Touches glib g s.1.heap)
          (rw (e, ref_count-unref, ==_refl g, c) (refl, m)) in
      (
        (q, record s.1 { heap = heap' }),
        ground (arith, is_queued_lem g s.0, v.living, run),
        settled,
      )

  -- The notification of the second reference, with nothing queued or a toggle down queued.
  pub second_ref_empty :
      (main : Bool) (g : ℕ) (s : State glib)
      → Inv glib s
      → pending g s.0.q ≡ []
      → wrapper_is_rooted (s.1.instances g) ≡ false
      → ref_count s.1.heap g ≡ 1
      → Outcome g s
          (wrapped_gobj_toggle_notify glib main g false (with_heap glib (ref g s.1.heap) s))
  unfolding wrapped_gobj_toggle_notify
  second_ref_empty true g s v e m c =
      let heap' : glib.Heap = ref g s.1.heap in
      let (i, run, h) =
        handler_up glib g (record s.1 { heap = heap' }) (record { held = v.held g; mode = m }) in
      (
        (s.0, record s.1 { heap = heap'; instances = update s.1.instances g i }),
        ground (arith, is_queued_lem g s.0, v.living, run),
        switched_Settles glib g s heap' i s.1.gc_scheduled v (ref-Touches glib g s.1.heap) h
            (rw (e, ref_count-ref, ==_refl g, c) (omega arith, refl)),
      )
  second_ref_empty false g s v e m c =
      let heap' : glib.Heap = ref g (ref g s.1.heap) in
      let (q, run, settled) =
        enqueued_Settles glib g s heap' up v (twice_Touches glib g s.1.heap)
          (rw (e, ref_count-ref, ref_count-ref, ==_refl g, c) (omega arith, m)) in
      (
        (q, record s.1 { heap = heap' }),
        ground (arith, is_queued_lem g s.0, v.living, run),
        settled,
      )

  pub second_ref_down :
      (main : Bool) (g : ℕ) (s : State glib)
      → Inv glib s
      → pending g s.0.q ≡ down ∷ []
      → wrapper_is_rooted (s.1.instances g) ≡ true
      → ref_count s.1.heap g ≡ 1
      → Outcome g s
          (wrapped_gobj_toggle_notify glib main g false (with_heap glib (ref g s.1.heap) s))
  unfolding wrapped_gobj_toggle_notify
  second_ref_down main g s v e m c =
      let heap' : glib.Heap = ref g (ref g s.1.heap) in
      let (q, run, settled) =
        enqueued_Settles glib g s heap' up v (twice_Touches glib g s.1.heap)
          (rw (e, ref_count-ref, ref_count-ref, ==_refl g, c) (omega arith, m)) in
      (
        (q, record s.1 { heap = heap' }),
        ground (arith, is_queued_lem g s.0, v.living, run),
        settled,
      )

  pub ref_kept :
      (main : Bool) (g : ℕ) (s : State glib)
      → Inv glib s
      → (ref_count s.1.heap g == 1) ≡ false
      → Phase (pending g s.0.q) (suc (ref_count s.1.heap g)) (wrapper_is_rooted (s.1.instances g))
      → Outcome g s (object_ref glib main g s)
  unfolding object_ref
  ref_kept main g s v more ph = (
    with_heap glib (ref g s.1.heap) s,
    rw (more, object_ref) refl,
    kept_Settles glib g s (ref g s.1.heap) v (ref-Touches glib g s.1.heap)
        (rw (ref_count-ref, ==_refl g) ph),
  )

  -- By the phase of the object.
  pub ref_by :
      (main : Bool) (g : ℕ) (s : State glib) (ds : List Direction)
      → Inv glib s
      → pending g s.0.q ≡ ds
      → Phase ds (ref_count s.1.heap g) (wrapper_is_rooted (s.1.instances g))
      → Outcome g s (object_ref glib main g s)
  unfolding object_ref
  ref_by main g s [] v e ph = elim (Bool-cases (ref_count s.1.heap g == 1)) [
    | inl one ↦
        rw (one, object_ref) (second_ref_empty main g s v e (ground arith) ((==_iff _ _).0 one))
    | inr more ↦ ref_kept main g s v more (rw e (ground arith))
  ]
  ref_by main g s (up ∷ []) v e ph = ref_kept main g s v (ground arith) (rw e (omega arith, ph.1))
  ref_by main g s (down ∷ []) v e ph =
      rw ((==_iff _ _).1 ph.0, object_ref) (second_ref_down main g s v e ph.1 ph.0)
  ref_by main g s (down ∷ up ∷ []) v e ph =
      ref_kept main g s v (ground arith) (rw e (omega arith, ph.1))
  ref_by main g s (up ∷ d ∷ ds) v e ph = absurd ph
  ref_by main g s (down ∷ down ∷ ds) v e ph = absurd ph
  ref_by main g s (down ∷ up ∷ d ∷ ds) v e ph = absurd ph

  pub unref_kept :
      (main : Bool) (g : ℕ) (s : State glib)
      → Inv glib s
      → (ref_count s.1.heap g == 2) ≡ false
      → Phase (pending g s.0.q) (ref_count s.1.heap g - 1) (wrapper_is_rooted (s.1.instances g))
      → Outcome g s (object_unref glib main g s)
  unfolding object_unref
  unref_kept main g s v more ph = (
    with_heap glib (unref g s.1.heap) s,
    rw (more, object_unref) refl,
    kept_Settles glib g s (unref g s.1.heap) v (unref-Touches glib g s.1.heap)
        (rw (ref_count-unref, ==_refl g) ph),
  )

  pub unref_empty :
      (main : Bool) (g : ℕ) (s : State glib)
      → Inv glib s
      → pending g s.0.q ≡ []
      → 1 < ref_count s.1.heap g
      → wrapper_is_rooted (s.1.instances g) ≡ true
      → Outcome g s (object_unref glib main g s)
  unfolding object_unref
  unref_empty main g s v e h m = elim (Bool-cases (ref_count s.1.heap g == 2)) [
    | inl two ↦ rw (two, object_unref) (last_ref main g s v e m ((==_iff _ _).0 two))
    | inr more ↦ unref_kept main g s v more (rw e (ground arith))
  ]

  pub unref_by :
      (main : Bool) (g : ℕ) (s : State glib) (ds : List Direction)
      → Inv glib s
      → pending g s.0.q ≡ ds
      → Phase ds (ref_count s.1.heap g) (wrapper_is_rooted (s.1.instances g))
      → queue_refs ds + 1 < ref_count s.1.heap g
      → Outcome g s (object_unref glib main g s)
  unref_by main g s [] v e ph h = unref_empty main g s v e h (ground arith)
  unref_by main g s (up ∷ []) v e ph h =
      unref_kept main g s v (ground arith) (rw e (omega arith, ph.1))
  unref_by main g s (down ∷ []) v e ph h = absurd (omega arith)
  unref_by main g s (down ∷ up ∷ []) v e ph h =
      unref_kept main g s v (ground arith) (rw e (omega arith, ph.1))
  unref_by main g s (up ∷ d ∷ ds) v e ph h = absurd ph
  unref_by main g s (down ∷ down ∷ ds) v e ph h = absurd ph
  unref_by main g s (down ∷ up ∷ d ∷ ds) v e ph h = absurd ph
