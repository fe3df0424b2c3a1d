-- ===== src/Object/Invariant.antt =====
-- The invariant of the toggle references over all objects (gi/object.cpp, gi/toggle.cpp), and what a
-- step for one object has to give for it to be kept.
use cjs.Prelude.{
  ℕ, ◌<◌, ◌≤◌, ◌≡◌, refl, ◌∙◌, Bool, true, false, some, List, [], ◌∷◌, ◌++◌, ◌==◌, ltb, arith, inl,
  inr, Bool-cases, ==_iff,
}
use mathlib.Core.Path.{subst}
use cjs.Toggle.{Direction, down, up, Item, ToggleQueue, is_up, enqueue}
use cjs.Toggle.Laws.{pending}
use cjs.Object.Defs.{GLib, World, wrapper_is_rooted, toggle_handler_ptr}
use cjs.Object.Phases.{IsHeld}

-- What is queued for an object, its reference count, and the mode of its wrapper, together.
abbrev pub Phase : List Direction → ℕ → Bool → Type 0
Phase [] count is_rooted = (1 ≤ count) × (is_rooted ≡ ltb 1 count)
Phase (up ∷ []) count is_rooted = (2 ≤ count) × (is_rooted ≡ false)
Phase (down ∷ []) count is_rooted = (count ≡ 1) × (is_rooted ≡ true)
Phase (down ∷ up ∷ []) count is_rooted = (2 ≤ count) × (is_rooted ≡ true)
Phase _ _ _ = ⊥

abbrev pub Unrefs : List Item → Type 0
Unrefs [] = Unit
Unrefs (item ∷ rest) = (item.needs_unref ≡ is_up item.direction) × Unrefs rest

-- The queue accepts toggles, its items carry the reference that they took, and while an idle source
-- is installed its handler is that of gi/object.cpp.
pub record IsOpen (q : ToggleQueue) : Type 0 where
  pub running : q.has_shutdown ≡ false
  pub unrefs : Unrefs q.q
  pub handler : (q.idle_id == 0) ≡ false → q.toggle_handler ≡ some toggle_handler_ptr

pub Unrefs-append :
    (xs : List Item) (item : Item)
    → Unrefs xs
    → item.needs_unref ≡ is_up item.direction
    → Unrefs (xs ++ item ∷ [])
Unrefs-append [] item h e = (e, tt)
Unrefs-append (x ∷ xs) item h e = (h.0, Unrefs-append xs item h.1 e)

pub enqueue_open :
    (source : ℕ) (q : ToggleQueue) (g : ℕ) (d : Direction)
    → 0 < source
    → IsOpen q
    → (q' : ToggleQueue) × (enqueue source q g d toggle_handler_ptr ≡ some (q', is_up d))
      × IsOpen q'
      × (q'.q ≡ q.q ++ record { gobj = g; direction = d; needs_unref = is_up d } ∷ [])
unfolding enqueue
enqueue_open source q g d pos h = elim (Bool-cases (q.idle_id == 0)) [
  | inl idle ↦ (
    record q {
      q = q.q ++ record { gobj = g; direction = d; needs_unref = is_up d } ∷ [];
      toggle_handler = some toggle_handler_ptr;
      idle_id = source;
    },
    ground arith,
    record { running = h.running; unrefs = Unrefs-append q.q _ h.unrefs refl; handler = λ e. refl },
    refl,
  )
  | inr busy ↦ (
    record q { q = q.q ++ record { gobj = g; direction = d; needs_unref = is_up d } ∷ [] },
    ground arith,
    record { running = h.running; unrefs = Unrefs-append q.q _ h.unrefs refl; handler = h.handler },
    refl,
  )
]

module _ (glib : GLib) where
  open glib use {
    ref_count, ref, unref, idle_source, ref_count-ref, ref_count-unref, idle_source_pos,
  }

  abbrev pub State : Type 0
  State = ToggleQueue × World glib

  abbrev pub PhaseAt : State → ℕ → Type 0
  PhaseAt s g = Phase (pending g s.0.q) (ref_count s.1.heap g) (wrapper_is_rooted (s.1.instances g))

  -- While the context lives, every object is in one of the phases, its instance is found from it, and
  -- its wrapper is there and was not finalized.
  pub record Inv (s : State) : Type 0 where
    pub living : s.1.destroying ≡ false
    pub queue : IsOpen s.0
    pub held : (g : ℕ) → IsHeld (s.1.instances g)
    pub phase : (g : ℕ) → PhaseAt s g

  -- Of a step for the object `g`: it gives a state that is in order for `g`, and all else is kept.
  pub record Settles (g : ℕ) (s t : State) : Type 0 where
    pub living : t.1.destroying ≡ s.1.destroying
    pub queue : IsOpen t.0
    pub held : IsHeld (t.1.instances g)
    pub phase : PhaseAt t g
    pub others :
        (j : ℕ)
        → (g == j) ≡ false
        → (pending j t.0.q ≡ pending j s.0.q)
          × (ref_count t.1.heap j ≡ ref_count s.1.heap j)
          × (t.1.instances j ≡ s.1.instances j)

  pub Settles-Inv : {g : ℕ} {s t : State} → Settles g s t → Inv s → Inv t
  Settles-Inv {g} {s} {t} c v = record {
    living = c.living ∙ v.living;
    queue = c.queue;
    held = λ j. elim (Bool-cases (g == j)) [
      | inl e ↦ subst (λ k. IsHeld (t.1.instances k)) ((==_iff g j).0 e) c.held
      | inr e ↦ rw ((c.others j e).2) (v.held j)
    ];
    phase = λ j. elim (Bool-cases (g == j)) [
      | inl e ↦ subst (PhaseAt t) ((==_iff g j).0 e) c.phase
      | inr e ↦
          let (same_pending, same_count, same_instance) = c.others j e in
          rw (same_pending, same_count, same_instance) (v.phase j)
    ];
  }
