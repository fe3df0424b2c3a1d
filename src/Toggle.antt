-- ===== src/Toggle.antt =====
-- ToggleQueue (gi/toggle.cpp, gi/toggle.h): the queue of pending toggle-up and toggle-down events.
-- Each function is what one thread does while it holds the lock; a GObject is named by a number.
pub mod Laws
mod Examples
use cjs.Prelude.{
  ℕ, zero, suc, ◌≡◌, Bool, true, false, Option, none, some, List, [], ◌∷◌, ◌++◌, if◌then◌else◌,
  ◌==◌, ◌&&◌, not,
}

pub data Direction : Type 0 where
  down up : Direction

abbrev pub same_direction : Direction → Direction → Bool
same_direction down down = true
same_direction up up = true
same_direction _ _ = false

pub record Item : Type 0 where
  pub gobj : ℕ
  pub direction : Direction
  pub needs_unref : Bool

-- `idle_id` is 0 while no idle source is installed; `toggle_handler` is then the null pointer.
pub record ToggleQueue : Type 0 where
  pub q : List Item
  pub has_shutdown : Bool
  pub idle_id : ℕ
  pub toggle_handler : Option ℕ

unfoldable pub empty : ToggleQueue
empty = record { q = []; has_shutdown = false; idle_id = 0; toggle_handler = none }

abbrev pub is_some {ℓ} : {A : Type ℓ} → Option A → Bool
is_some none = false
is_some (some _) = true

abbrev next : Option ℕ → Option ℕ
next none = none
next (some i) = some (suc i)

unfoldable pub is_operation : ℕ → Direction → Item → Bool
is_operation gobj direction item = item.gobj == gobj && same_direction item.direction direction

-- The position of the first such operation, or `none` for `q.end()`.
unfoldable pub find_operation_locked : ℕ → Direction → List Item → Option ℕ
unfolding is_operation
find_operation_locked gobj direction [] = none
find_operation_locked gobj direction (item ∷ rest) =
    if is_operation gobj direction item
    then some 0
    else next (find_operation_locked gobj direction rest)

unfoldable pub erase_at : ℕ → List Item → List Item
erase_at i [] = []
erase_at zero (item ∷ rest) = rest
erase_at (suc i) (item ∷ rest) = item ∷ erase_at i rest

-- The list that is left, and whether there was such an operation.
unfoldable pub find_and_erase_operation_locked : ℕ → Direction → List Item → List Item × Bool
unfolding find_operation_locked erase_at
find_and_erase_operation_locked gobj direction q = elim (find_operation_locked gobj direction q) [
  | none ↦ (q, false)
  | some pos ↦ (erase_at pos q, true)
]

-- Whether a toggle down, and a toggle up, is queued.
unfoldable pub is_queued : ℕ → ToggleQueue → Bool × Bool
unfolding find_operation_locked
is_queued gobj self = (
  is_some (find_operation_locked gobj down self.q),
  is_some (find_operation_locked gobj up self.q),
)

unfoldable pub cancel : ℕ → ToggleQueue → ToggleQueue × (Bool × Bool)
unfolding find_and_erase_operation_locked
cancel gobj self =
    let (q1, had_toggle_down) = find_and_erase_operation_locked gobj down self.q in
    let (q2, had_toggle_up) = find_and_erase_operation_locked gobj up q1 in
    (record self { q = q2 }, (had_toggle_down, had_toggle_up))

abbrev pub handled {ℓ} : {S : Type ℓ} → Option S → Option (S × Bool)
handled none = none
handled (some s) = some (s, true)

-- The handler works on the rest of the program, `W`, while the lock is held; the unref after it may
-- come back to the queue. `none` is a failed assertion in one of them.
module _ {ℓ} {W : Type ℓ} (handler : ℕ → Direction → W → Option W)
    (unref : ℕ → ToggleQueue × W → Option (ToggleQueue × W)) where
  unfoldable pub handle_toggle : ToggleQueue → W → Option ((ToggleQueue × W) × Bool)
  handle_toggle self w = elim self.q [
    | [] ↦ some ((self, w), false)
    | item ∷ rest ↦ elim (handler item.gobj item.direction w) [
      | none ↦ none
      | some w' ↦
          if item.needs_unref
          then handled (unref item.gobj (record self { q = rest }, w'))
          else some ((record self { q = rest }, w'), true)
    ]
  ]

  -- `while (self->handle_toggle(self->m_toggle_handler));` with fuel. `none` is a failed assertion
  -- or the end of the fuel; the Boolean tells that the loop ended by its test.
  unfoldable pub idle_handle_toggle : ℕ → ToggleQueue → W → Option ((ToggleQueue × W) × Bool)
  unfolding handle_toggle
  idle_handle_toggle zero self w = some ((self, w), false)
  idle_handle_toggle (suc fuel) self w = elim (handle_toggle self w) [
    | none ↦ none
    | some ((self', w'), false) ↦ some ((self', w'), true)
    | some ((self', w'), true) ↦ idle_handle_toggle fuel self' w'
  ]

-- The assertion that the queue is empty.
unfoldable pub shutdown : ToggleQueue → Option ToggleQueue
shutdown self = elim self.q [ [] ↦ some (record self { has_shutdown = true }) | _ ∷ _ ↦ none ]

abbrev same_handler : Option ℕ → ℕ → Bool
same_handler none handler = false
same_handler (some h) handler = h == handler

abbrev pub is_up : Direction → Bool
is_up up = true
is_up down = false

-- `source` is the id that g_idle_add_full gives. The Boolean says that g_object_ref was called on
-- the object.
unfoldable pub enqueue : ℕ → ToggleQueue → ℕ → Direction → ℕ → Option (ToggleQueue × Bool)
enqueue source self gobj direction handler =
    let item : Item = record {
      gobj = gobj;
      direction = direction;
      needs_unref = is_up direction;
    } in
    let pushed = record self { q = self.q ++ item ∷ [] } in
    if self.has_shutdown
    then some (self, false)
    else if not (self.idle_id == 0)
    then (if same_handler self.toggle_handler handler then some (pushed, is_up direction) else none)
    else some (record pushed { toggle_handler = some handler; idle_id = source }, is_up direction)

unfoldable pub idle_destroy_notify : ToggleQueue → ToggleQueue
idle_destroy_notify self = record self { idle_id = 0; toggle_handler = none }
