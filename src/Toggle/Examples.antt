-- ===== src/Toggle/Examples.antt =====
-- Runs of the toggle queue (gi/toggle.cpp) at a concrete queue.
use cjs.Prelude.{ℕ, ◌≡◌, ◌==◌, true, false, some, List, [], ◌∷◌, arith, if◌then◌else◌}
use cjs.Toggle.{Direction, down, up, ToggleQueue, is_queued, cancel, idle_handle_toggle}
use cjs.Toggle.Laws.{
  pending, without, handler, unref, process_all, cancel_lem, idle_handle_toggle_lem,
}

abbrev queue : ToggleQueue
queue = record {
  q =
      record { gobj = 1; direction = down; needs_unref = false }
      ∷ record { gobj = 2; direction = down; needs_unref = false }
      ∷ record { gobj = 1; direction = up; needs_unref = true }
      ∷ [];
  has_shutdown = false;
  idle_id = 9;
  toggle_handler = some 1;
}

cancel_lem_example :
    ((cancel 1 queue).1 ≡ is_queued 1 queue)
    × ((j : ℕ)
        → pending j (cancel 1 queue).0.q
          ≡ (if 1 == j then without up (without down (pending 1 queue.q)) else pending j queue.q))
    × ((cancel 1 queue).0 ≡ record queue { q = (cancel 1 queue).0.q })
cancel_lem_example = cancel_lem 1 queue

abbrev visit : ℕ → Direction → List ℕ → List ℕ
visit g d seen = g ∷ seen

abbrev drop_ref : ℕ → List ℕ → List ℕ
drop_ref g seen = 0 ∷ seen

idle_handle_toggle_lem_example :
    idle_handle_toggle (handler visit drop_ref) (unref visit drop_ref) 4 queue []
    ≡ some ((record queue { q = [] }, process_all visit drop_ref queue.q []), true)
idle_handle_toggle_lem_example = idle_handle_toggle_lem visit drop_ref 4 queue [] (omega arith)
