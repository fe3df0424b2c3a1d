-- ===== src/Object/Phases.antt =====
-- What the toggle queue, the reference count and the wrapper of one object may be at a time, and
-- how the handler and an enqueue change them (gi/object.cpp, gi/toggle.cpp).
use cjs.Prelude.{◌&&◌, ◌≡◌, Bool, true, false, none, some, not, arith, inl, inr, Option-cases}
use cjs.Root.Refinement.{IsValid}
use cjs.Object.Defs.{
  ObjectInstance, has_wrapper, wrapper_is_rooted, toggle_down, toggle_up, for_gobject,
  check_js_object_finalized,
}

-- The wrapper is there, well formed and not finalized, and the instance is found from its GObject.
pub record IsHeld (i : ObjectInstance) : Type 0 where
  pub found : i.in_qdata ≡ true
  pub not_finalized : (i.uses_toggle_ref && i.wrapper_finalized) ≡ false
  pub present : has_wrapper i ≡ true
  pub valid : IsValid i.wrapper

-- The instance in a given mode.
pub record IsIn (b : Bool) (i : ObjectInstance) : Type 0 where
  pub held : IsHeld i
  pub mode : wrapper_is_rooted i ≡ b

pub toggle_down_rooted :
    (destroying : Bool) (i : ObjectInstance)
    → IsIn true i
    → (i' : ObjectInstance) × (toggle_down destroying i ≡ some (i', not destroying)) × IsIn false i'
unfolding toggle_down has_wrapper
toggle_down_rooted destroying i h = elim (Option-cases i.wrapper.root) [
  | inl e ↦ absurd (ground arith)
  | inr (t, e) ↦ (
    record i { wrapper = record { heap = t; root = none; notify = none } },
    ground arith,
    ground arith,
  )
]

pub toggle_up_unrooted :
    (i : ObjectInstance)
    → IsIn false i
    → (i' : ObjectInstance) × (toggle_up i ≡ some i') × IsIn true i'
unfolding toggle_up
toggle_up_unrooted i h = elim (Option-cases i.wrapper.root) [
  | inl e ↦ (
    record i { wrapper = record { heap = none; root = some i.wrapper.heap; notify = none } },
    ground arith,
    ground arith,
  )
  | inr (t, e) ↦ absurd (ground arith)
]

-- The check of for_gobject passes.
pub for_gobject-IsHeld : (i : ObjectInstance) → IsHeld i → for_gobject i ≡ some i
unfolding for_gobject check_js_object_finalized
for_gobject-IsHeld i h = ground (arith, h.found, h.not_finalized)
