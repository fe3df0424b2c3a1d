-- ===== src/Toggle/Laws.antt =====
-- What the toggle queue holds for one object, and how each operation changes it.
use cjs.Prelude.{
  ℕ, zero, suc, ◌<◌, ◌≡◌, refl, Bool, true, false, Option, some, List, [], ◌∷◌, ◌++◌, arith,
  if◌then◌else◌, ◌==◌, length,
}
use cjs.Toggle.{
  Direction, down, up, same_direction, Item, ToggleQueue, is_some, find_operation_locked, erase_at,
  find_and_erase_operation_locked, is_queued, cancel, handle_toggle, idle_handle_toggle,
}

-- The directions queued for an object, oldest first.
unfoldable pub pending : ℕ → List Item → List Direction
pending g [] = []
pending g (item ∷ rest) = if item.gobj == g then item.direction ∷ pending g rest else pending g rest

abbrev pub has : Direction → List Direction → Bool
has d [] = false
has d (e ∷ es) = if same_direction e d then true else has d es

abbrev pub without : Direction → List Direction → List Direction
without d [] = []
without d (e ∷ es) = if same_direction e d then es else e ∷ without d es

pub pending-append :
    (g : ℕ) (xs : List Item) (item : Item)
    → pending g (xs ++ item ∷ [])
      ≡ (if item.gobj == g then pending g xs ++ item.direction ∷ [] else pending g xs)
unfolding pending
pending-append g [] item = ground arith
pending-append g (x ∷ xs) item = ground (arith, pending-append g xs item)

is_some-find_operation :
    (g : ℕ) (d : Direction) (xs : List Item)
    → is_some (find_operation_locked g d xs) ≡ has d (pending g xs)
unfolding find_operation_locked pending
is_some-find_operation g d [] = refl
is_some-find_operation g d (x ∷ xs) = ground (arith, is_some-find_operation g d xs)

pub is_queued_lem :
    (g : ℕ) (s : ToggleQueue) → is_queued g s ≡ (has down (pending g s.q), has up (pending g s.q))
unfolding is_queued
is_queued_lem g s =
    ground (arith, is_some-find_operation g down s.q, is_some-find_operation g up s.q)

find_and_erase_lem :
    (g : ℕ) (d : Direction) (xs : List Item) (j : ℕ)
    → (pending j (find_and_erase_operation_locked g d xs).0
        ≡ (if g == j then without d (pending g xs) else pending j xs))
      × ((find_and_erase_operation_locked g d xs).1 ≡ has d (pending g xs))
unfolding find_and_erase_operation_locked find_operation_locked erase_at pending
find_and_erase_lem g d [] j = ground arith
find_and_erase_lem g d (x ∷ xs) j = ground (arith, find_and_erase_lem g d xs j)

has-without : (ds : List Direction) → has up (without down ds) ≡ has up ds
has-without [] = refl
has-without (down ∷ ds) = refl
has-without (up ∷ ds) = refl

-- Cancelling reports what was queued for the object, takes the oldest toggle down and the oldest
-- toggle up of that object out of the queue, leaves what is queued for every other object, in its
-- order, and leaves the idle source and the shutdown flag alone.
pub cancel_lem :
    (g : ℕ) (s : ToggleQueue)
    → ((cancel g s).1 ≡ is_queued g s)
      × ((j : ℕ)
          → pending j (cancel g s).0.q
            ≡ (if g == j then without up (without down (pending g s.q)) else pending j s.q))
      × ((cancel g s).0 ≡ record s { q = (cancel g s).0.q })
unfolding cancel
cancel_lem g s = (
  ground (
    arith,
    is_queued_lem g s,
    find_and_erase_lem g down s.q g,
    find_and_erase_lem g up (find_and_erase_operation_locked g down s.q).0 g,
    has-without (pending g s.q),
  ),
  λ j. ground (
    arith,
    find_and_erase_lem g down s.q j,
    find_and_erase_lem g down s.q g,
    find_and_erase_lem g up (find_and_erase_operation_locked g down s.q).0 j,
  ),
  refl,
)

module _ {ℓ} {W : Type ℓ} (work : ℕ → Direction → W → W) (release : ℕ → W → W) where
  abbrev pub process : Item → W → W
  process item w =
      if item.needs_unref
      then release item.gobj (work item.gobj item.direction w)
      else work item.gobj item.direction w

  abbrev pub process_all : List Item → W → W
  process_all [] w = w
  process_all (item ∷ rest) w = process_all rest (process item w)

  abbrev pub handler : ℕ → Direction → W → Option W
  handler g d w = some (work g d w)

  abbrev pub unref : ℕ → ToggleQueue × W → Option (ToggleQueue × W)
  unref g s = some (s.0, release g s.1)

  handle_toggle_cons :
      (item : Item) (rest : List Item) (s : ToggleQueue) (w : W)
      → s.q ≡ item ∷ rest
      → handle_toggle handler unref s w ≡ some ((record s { q = rest }, process item w), true)
  unfolding handle_toggle
  handle_toggle_cons item rest s w e = ground arith

  handle_toggle_nil :
      (s : ToggleQueue) (w : W) → s.q ≡ [] → handle_toggle handler unref s w ≡ some ((s, w), false)
  unfolding handle_toggle
  handle_toggle_nil s w e = ground arith

  drain :
      (q : List Item) (fuel : ℕ) (s : ToggleQueue) (w : W)
      → s.q ≡ q
      → length q < fuel
      → idle_handle_toggle handler unref fuel s w
        ≡ some ((record s { q = [] }, process_all q w), true)
  unfolding idle_handle_toggle
  drain q zero s w e h = elim h [ ]
  drain [] (suc fuel) s w e h = ground (arith, handle_toggle_nil s w e)
  drain (item ∷ rest) (suc fuel) s w e h =
      rw (handle_toggle_cons item rest s w e, idle_handle_toggle)
        (drain rest fuel (record s { q = rest }) (process item w) refl (omega arith))

  -- With more fuel than there are items, and a handler and an unref that leave the queue alone,
  -- the idle loop ends by its test with the queue empty, and has handled the items in the order in
  -- which they were queued, with one unref after each item that needs it.
  pub idle_handle_toggle_lem :
      (fuel : ℕ) (s : ToggleQueue) (w : W)
      → length s.q < fuel
      → idle_handle_toggle handler unref fuel s w
        ≡ some ((record s { q = [] }, process_all s.q w), true)
  idle_handle_toggle_lem fuel s w h = drain s.q fuel s w refl h

-- One round of the idle loop, by what handling a toggle gives.
module _ {ℓ} {W : Type ℓ} (work : ℕ → Direction → W → Option W)
    (release : ℕ → ToggleQueue × W → Option (ToggleQueue × W)) (fuel : ℕ) (s s' : ToggleQueue)
    (w w' : W) where
  pub idle_handle_toggle_more :
      handle_toggle work release s w ≡ some ((s', w'), true)
      → idle_handle_toggle work release (suc fuel) s w ≡ idle_handle_toggle work release fuel s' w'
  unfolding idle_handle_toggle
  idle_handle_toggle_more e = rw (e, idle_handle_toggle) refl

  pub idle_handle_toggle_end :
      handle_toggle work release s w ≡ some ((s', w'), false)
      → idle_handle_toggle work release (suc fuel) s w ≡ some ((s', w'), true)
  unfolding idle_handle_toggle
  idle_handle_toggle_end e = rw (e, idle_handle_toggle) refl
