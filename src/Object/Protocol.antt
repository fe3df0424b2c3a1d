-- ===== src/Object/Protocol.antt =====
-- The steps of the protocol, one round of the queue among them, and what holds after any of them
-- (gi/object.cpp, gi/toggle.cpp).
use cjs.Prelude.{
  ℕ, ◌+◌, ◌<◌, ◌≤◌, ◌≡◌, refl, sym, ◌∙◌, ap, Bool, true, false, Option, some, List, [], ◌∷◌, arith,
  ◌⊎◌, ==_refl,
}
use mathlib.Core.Path.{subst}
use mathlib.Core.Option.{some-injective}
use cjs.Toggle.{idle_destroy_notify, Direction, down, up, Item, ToggleQueue, handle_toggle}
use cjs.Toggle.Laws.{pending}
use cjs.Object.Defs.{
  GLib, ObjectInstance, update, wrapped_gobj_toggle_notify, object_ref, object_unref, handle,
}
use cjs.Object.Phases.{IsIn}
use cjs.Object.Invariant.{Phase, State, Inv, Settles, Settles-Inv}
use cjs.Object.Settles.{handler_down, handler_up}
use cjs.Object.Notify.{queue_refs, ref_by, unref_by, unref_empty}

Phase-up :
    (ds : List Direction) (count : ℕ) (b : Bool)
    → Phase (up ∷ ds) count b
    → (ds ≡ []) × (2 ≤ count) × (b ≡ false)
Phase-up [] count b h = (refl, h.0, h.1)
Phase-up (d ∷ ds) count b h = absurd h

Phase-down :
    (ds : List Direction) (count : ℕ) (b : Bool)
    → Phase (down ∷ ds) count b
    → (b ≡ true) × Phase ds count false
Phase-down [] count b h = (h.1, (omega (arith, h.0), ground (arith, h.0)))
Phase-down (up ∷ []) count b h = (h.1, (h.0, refl))
Phase-down (down ∷ ds) count b h = absurd h
Phase-down (up ∷ d ∷ ds) count b h = absurd h

module _ (glib : GLib) where
  open glib use {ref_count}

  abbrev with_queue : ToggleQueue → List Item → ToggleQueue
  with_queue q rest = record q { q = rest }

  -- The front item is handled: its object's wrapper is switched, and the item is gone.
  popped_Settles :
      (s : State glib) (item : Item) (rest : List Item) (i : ObjectInstance) (gc : Bool) {b : Bool}
      → Inv glib s
      → s.0.q ≡ item ∷ rest
      → IsIn b i
      → Phase (pending item.gobj rest) (ref_count s.1.heap item.gobj) b
      → Settles glib item.gobj s (
        with_queue s.0 rest,
        record s.1 { instances = update s.1.instances item.gobj i; gc_scheduled = gc },
      )
  unfolding pending
  popped_Settles s item rest i gc v e h ph = record {
    living = refl;
    queue = record {
      running = v.queue.running;
      unrefs = (rw e at v.queue.unrefs).1;
      handler = v.queue.handler;
    };
    held = rw (==_refl item.gobj) h.held;
    phase = rw (==_refl item.gobj, h.mode) ph;
    others = λ j n. (rw (e, pending, n) refl, refl, rw n);
  }

  abbrev pub Handled : List Item → State glib → Option (State glib × Bool) → Type 0
  Handled rest s r = (t : State glib) × (r ≡ some (t, true)) × Inv glib t × (t.0.q ≡ rest)

  -- An unref on the main thread leaves the queue alone.
  object_unref-queue :
      (g : ℕ) (s : State glib) {t : State glib} → object_unref glib true g s ≡ some t → t.0 ≡ s.0
  unfolding object_unref wrapped_gobj_toggle_notify
  object_unref-queue g s e = ground arith

  handle_up :
      (s : State glib) (g : ℕ) (rest : List Item)
      → Inv glib s
      → s.0.q ≡ record { gobj = g; direction = up; needs_unref = true } ∷ rest
      → Handled rest s (handle glib s)
  unfolding handle handle_toggle pending
  handle_up s g rest v e =
      let (none_left, two, mode) =
        Phase-up (pending g rest) (ref_count s.1.heap g) _
          (rw (e, pending, ==_refl g) at (v.phase g)) in
      let (i, run, h) = handler_up glib g s.1 (record { held = v.held g; mode = mode }) in
      let settled =
        popped_Settles s _ rest i s.1.gc_scheduled v e h
          (rw none_left (omega arith, ground arith)) in
      let (t, released, after) =
        unref_empty glib true g
          (with_queue s.0 rest, record s.1 { instances = update s.1.instances g i })
          (Settles-Inv glib settled v) none_left two (rw (==_refl g) h.mode) in
      (
        t,
        ground (arith, run, released),
        Settles-Inv glib after (Settles-Inv glib settled v),
        ap (λ (q : ToggleQueue). q.q) (object_unref-queue g _ released),
      )

  handle_down :
      (s : State glib) (g : ℕ) (rest : List Item)
      → Inv glib s
      → s.0.q ≡ record { gobj = g; direction = down; needs_unref = false } ∷ rest
      → Handled rest s (handle glib s)
  unfolding handle handle_toggle pending
  handle_down s g rest v e =
      let (mode, left) =
        Phase-down (pending g rest) (ref_count s.1.heap g) _
          (rw (e, pending, ==_refl g) at (v.phase g)) in
      let (i, gc, run, h) = handler_down glib g s.1 (record { held = v.held g; mode = mode }) in
      (
        (
          with_queue s.0 rest,
          record s.1 { instances = update s.1.instances g i; gc_scheduled = gc },
        ),
        ground (arith, run),
        Settles-Inv glib (popped_Settles s _ rest i gc v e h left) v,
        refl,
      )

  pub handle_front :
      (d : Direction) (s : State glib) (item : Item) (rest : List Item)
      → item.direction ≡ d
      → Inv glib s
      → s.0.q ≡ item ∷ rest
      → Handled rest s (handle glib s)
  handle_front up s item rest dir v e =
      handle_up s item.gobj rest v (ground (arith, (rw e at v.queue.unrefs).0))
  handle_front down s item rest dir v e =
      handle_down s item.gobj rest v (ground (arith, (rw e at v.queue.unrefs).0))

  pub handle_empty : (s : State glib) → s.0.q ≡ [] → handle glib s ≡ some (s, false)
  unfolding handle handle_toggle
  handle_empty s e = ground arith

  -- A step is an act of the program that no other thread interrupts: any thread takes a reference to
  -- an object, a thread drops one that is neither the wrapper's nor the queue's, the main thread handles one toggle, or the idle
  -- source is destroyed.
  pub data Step (s : State glib) : State glib → Type 0 where
    refs : (main : Bool) (g : ℕ) {t : State glib} → object_ref glib main g s ≡ some t → Step s t
    unrefs :
        (main : Bool) (g : ℕ) {t : State glib}
        → queue_refs (pending g s.0.q) + 1 < ref_count s.1.heap g
        → object_unref glib main g s ≡ some t
        → Step s t
    idle_ends : {t : State glib} → t ≡ (idle_destroy_notify s.0, s.1) → Step s t
    handles : (b : Bool) {t : State glib} → handle glib s ≡ some (t, b) → Step s t

  pub data Reach (s : State glib) : State glib → Type 0 where
    here : Reach s s
    later : {t u : State glib} → Reach s t → Step t u → Reach s u

  same_outcome :
      {A : Type 0} (P : A → Type 0) {r : Option A} {t : A}
      → (u : A) × (r ≡ some u) × P u
      → r ≡ some t
      → P t
  same_outcome P (u, e, h) f = subst P (some-injective _ _ (sym e ∙ f)) h

  -- In a state that keeps the invariant, by which the context lives and every object has a wrapper that
  -- was not finalized, any thread can take a reference to any object, if no other thread
  -- runs until the notification of it is done: no assertion fails, in the notification or where the
  -- instance is looked up from the object, and the invariant holds again.
  pub object_ref_lem :
      (main : Bool) (g : ℕ) (s : State glib)
      → Inv glib s
      → (t : State glib) × (object_ref glib main g s ≡ some t) × Inv glib t
  object_ref_lem main g s v =
      let (t, e, c) = ref_by glib main g s (pending g s.0.q) v refl (v.phase g) in
      (t, e, Settles-Inv glib c v)

  -- In a state that keeps the invariant, by which the context lives and every object has a wrapper that
  -- was not finalized, any thread can drop a reference to an object that is neither the
  -- wrapper's nor one that a queued toggle up holds, if no other thread runs until the notification of
  -- it is done: no assertion fails, in the notification or where the instance is looked up from the
  -- object, and the invariant holds again.
  pub object_unref_lem :
      (main : Bool) (g : ℕ) (s : State glib)
      → Inv glib s
      → queue_refs (pending g s.0.q) + 1 < ref_count s.1.heap g
      → (t : State glib) × (object_unref glib main g s ≡ some t) × Inv glib t
  object_unref_lem main g s v h =
      let (t, e, c) = unref_by glib main g s (pending g s.0.q) v refl (v.phase g) h in
      (t, e, Settles-Inv glib c v)

  handle_by :
      (q : List Item) (s : State glib)
      → s.0.q ≡ q
      → Inv glib s
      → (r : State glib × Bool) × (handle glib s ≡ some r) × Inv glib r.0
  handle_by [] s e v = ((s, false), handle_empty s e, v)
  handle_by (item ∷ rest) s e v =
      let (t, run, v', left) = handle_front item.direction s item rest refl v e in
      ((t, true), run, v')

  -- In a state that keeps the invariant, by which the context lives and every object has a wrapper that
  -- was not finalized, handling a toggle on the main thread, the lookup of the instance and the
  -- unref after it included, fails no assertion, and the invariant holds again, if no other thread
  -- runs meanwhile.
  pub handle_lem :
      (s : State glib)
      → Inv glib s
      → (r : State glib × Bool) × (handle glib s ≡ some r) × Inv glib r.0
  handle_lem s v = handle_by s.0.q s refl v

  idle_ends-Inv : (s : State glib) → Inv glib s → Inv glib (idle_destroy_notify s.0, s.1)
  unfolding idle_destroy_notify
  idle_ends-Inv s v = record {
    living = v.living;
    queue = record { running = v.queue.running; unrefs = v.queue.unrefs; handler = λ e. cc };
    held = v.held;
    phase = v.phase;
  }

  Step-Inv : {s t : State glib} → Step s t → Inv glib s → Inv glib t
  Step-Inv {s} (refs main g e) v = same_outcome (Inv glib) (object_ref_lem main g s v) e
  Step-Inv {s} (unrefs main g h e) v = same_outcome (Inv glib) (object_unref_lem main g s v h) e
  Step-Inv {s} (idle_ends e) v = subst (Inv glib) (sym e) (idle_ends-Inv s v)
  Step-Inv {s} (handles b e) v = same_outcome (λ r. Inv glib r.0) (handle_lem s v) e

  -- From a state that keeps the invariant, every state that can be reached keeps it.
  pub Reach-Inv : {s t : State glib} → Inv glib s → Reach s t → Inv glib t
  Reach-Inv v here = v
  Reach-Inv v (later r st) = Step-Inv st (Reach-Inv v r)

  -- From a state that keeps the invariant, however references are then taken and dropped by any thread,
  -- each together with its notification, but not the wrapper's or the queue's own, toggles are handled
  -- and idle sources end: at most two toggles are queued for an object, which are none, only a toggle
  -- up, only a toggle down, or a toggle down and then a toggle up.
  pub at_most_two :
      {s t : State glib} (g : ℕ)
      → Inv glib s
      → Reach s t
      → (pending g t.0.q ≡ [])
        ⊎ ((pending g t.0.q ≡ up ∷ [])
            ⊎ ((pending g t.0.q ≡ down ∷ []) ⊎ (pending g t.0.q ≡ down ∷ up ∷ [])))
  at_most_two {t = t} g v r = ground (arith, (Reach-Inv v r).phase g)
