-- ===== src/Root/Refinement.antt =====
-- GjsMaybeOwned against its contract: two modes, and which switches are allowed.
use cjs.Prelude.Options.{◌>>=◌}
use cjs.Prelude.{
  ℕ, ◌≡◌, refl, inl, inr, true, false, Bool, Option, none, some, if◌then◌else◌, List, [], ◌∷◌,
  arith, Option-cases,
}
use cjs.Root.{
  Thing, MaybeOwned, Notifier, Notify, new, rooted, get, root_thing, assign, reset,
  switch_to_rooted, switch_to_unrooted, update_after_gc, on_context_destroy, new_notifier,
  disconnect,
}

pub data Operation : Type 0 where
  assigns : Thing → Operation
  roots : Thing → Notify → Operation
  resets : Operation
  switches_to_rooted : Notify → Operation
  switches_to_unrooted : Operation
  sweeps : (Thing → Thing) → Operation
  notified_of_destruction : Operation

abbrev pub first {ℓ κ} : {A : Type ℓ} {B : Type κ} → Option (A × B) → Option A
first none = none
first (some (a, b)) = some a

unfoldable pub apply : (has_context : Bool) → MaybeOwned → Operation → Option MaybeOwned
unfolding assign root_thing reset switch_to_rooted switch_to_unrooted update_after_gc
    on_context_destroy
apply has_context m (assigns t) = assign m t
apply has_context m (roots t n) = root_thing has_context m t n
apply has_context m resets = reset has_context m
apply has_context m (switches_to_rooted n) = switch_to_rooted has_context m n
apply has_context m switches_to_unrooted = switch_to_unrooted has_context m
apply has_context m (sweeps swept) = first (update_after_gc swept m)
apply has_context m notified_of_destruction = first (on_context_destroy m)

-- Operations, each with whether there is a current context when it runs.
unfoldable pub run : MaybeOwned → List (Bool × Operation) → Option MaybeOwned
run m [] = some m
run m ((has_context, o) ∷ os) = apply has_context m o >>= λ m'. run m' os

-- Who is told when the context is destroyed while a thing is rooted: nobody, one who waits for it,
-- or one who has been told.
pub data Waiting : Type 0 where
  nobody waits told : Waiting

-- The contract: a thing that is held, whether it is rooted, and who waits for the context.
pub data Holding : Type 0 where
  unrooted : Thing → Holding
  rooted_at : Thing → Waiting → Holding

-- Rooting with a notification takes a context, and so does unrooting while somebody waits for it.
abbrev pub rooting : Bool → Notify → Thing → Option Holding
rooting has_context none t = some (rooted_at t nobody)
rooting true (some _) t = some (rooted_at t waits)
rooting false (some _) t = none

abbrev pub unrooting : Bool → Waiting → Thing → Option Holding
unrooting false waits t = none
unrooting _ _ t = some (unrooted t)

unfoldable pub contract : (has_context : Bool) → Holding → Operation → Option Holding
contract has_context (unrooted _) (assigns t) = some (unrooted t)
contract has_context (unrooted none) (roots t n) = rooting has_context n t
contract has_context (unrooted (some _)) (roots _ _) = none
contract has_context (unrooted _) resets = some (unrooted none)
contract has_context (unrooted t) (switches_to_rooted n) = rooting has_context n t
contract has_context (unrooted _) switches_to_unrooted = none
contract has_context (unrooted t) (sweeps swept) = some (unrooted (swept t))
contract has_context (unrooted _) notified_of_destruction = none
contract has_context (rooted_at _ w) resets = unrooting has_context w none
contract has_context (rooted_at t w) switches_to_unrooted = unrooting has_context w t
contract has_context (rooted_at t waits) notified_of_destruction = some (rooted_at t told)
contract has_context (rooted_at _ _) _ = none

unfoldable pub contract_run : Holding → List (Bool × Operation) → Option Holding
contract_run h [] = some h
contract_run h ((has_context, o) ∷ os) = contract has_context h o >>= λ h'. contract_run h' os

abbrev waiting_of : Option Notifier → Waiting
waiting_of none = nobody
waiting_of (some n) = if n.connected then waits else told

abbrev holding_of : Option Thing → Thing → Option Notifier → Holding
holding_of none heap n = unrooted heap
holding_of (some t) heap n = rooted_at t (waiting_of n)

unfoldable pub view : MaybeOwned → Holding
view m = holding_of m.root m.heap m.notify

-- The heap slot is empty while the thing is rooted, and only a rooted thing has a notifier, which
-- may be connected to the context or told of its destruction.
pub record IsValid (m : MaybeOwned) : Type 0 where
  pub one_slot : rooted m ≡ true → m.heap ≡ none
  pub notified : rooted m ≡ false → m.notify ≡ none

pub new-IsValid : IsValid new
unfolding new rooted
new-IsValid = record { one_slot = λ e. refl; notified = λ e. refl }

abbrev pub map_view : Option MaybeOwned → Option Holding
map_view none = none
map_view (some m) = some (view m)

abbrev pub AllValid : Option MaybeOwned → Type 0
AllValid none = Unit
AllValid (some m) = IsValid m

-- One operation fails exactly where the contract forbids it, and otherwise does what it says.
apply_refines :
    (b : Bool) (m : MaybeOwned) (o : Operation) → map_view (apply b m o) ≡ contract b (view m) o
unfolding apply view contract rooted new_notifier disconnect
apply_refines b m (assigns t) = ground arith
apply_refines b m (roots t n) = ground arith
apply_refines b m resets = ground arith
apply_refines b m (switches_to_rooted n) = ground arith
apply_refines b m switches_to_unrooted = ground arith
apply_refines b m (sweeps swept) = ground arith
apply_refines b m notified_of_destruction = ground arith

apply-IsValid :
    (b : Bool) (m : MaybeOwned) (o : Operation) {m' : MaybeOwned}
    → IsValid m
    → apply b m o ≡ some m'
    → IsValid m'
unfolding apply rooted new_notifier disconnect
apply-IsValid b m (assigns t) v e = ground arith
apply-IsValid b m (roots t n) v e = ground arith
apply-IsValid b m resets v e = ground arith
apply-IsValid b m (switches_to_rooted n) v e = ground arith
apply-IsValid b m switches_to_unrooted v e = ground arith
apply-IsValid b m (sweeps swept) v e = ground arith
apply-IsValid b m notified_of_destruction v e = ground arith

-- Any sequence of assignments, rootings, resets, switches of the mode, sweeps and notifications of the
-- destruction of the context, each with a current context or without, fails exactly where the
-- contract forbids one of them, and otherwise leaves the wrapper holding what the contract says, in
-- the mode that it says. The contract forbids to root what is rooted or a wrapper that holds a thing,
-- to assign to or sweep what is rooted, to unroot what is not, to tell of the destruction of the
-- context where nobody waits for it, and, without a current context, to root with a notification or
-- to drop a rooting while the notification waits.
pub run_refines :
    (m : MaybeOwned) (os : List (Bool × Operation)) → map_view (run m os) ≡ contract_run (view m) os
unfolding run contract_run
run_refines m [] = refl
run_refines m ((b, o) ∷ os) = elim (Option-cases (apply b m o)) [
  | inl e ↦ ground (arith, apply_refines b m o)
  | inr (m', e) ↦ ground (arith, apply_refines b m o, run_refines m' os)
]

-- Whatever assignments, rootings, resets, switches of the mode, sweeps and notifications of the
-- destruction of the context a well-formed wrapper goes through, with a current context or without, it
-- is well formed if no assertion failed: a rooted thing leaves the heap slot empty, and only a rooted
-- thing has a notifier.
pub run-IsValid :
    (m : MaybeOwned) (os : List (Bool × Operation)) {m' : MaybeOwned}
    → IsValid m
    → run m os ≡ some m'
    → IsValid m'
unfolding run
run-IsValid m [] v e = ground arith
run-IsValid m ((b, o) ∷ os) {m'} v e = elim (Option-cases (apply b m o)) [
  | inl f ↦ absurd (ground arith)
  | inr (n, f) ↦ run-IsValid n os (apply-IsValid b m o v f) (ground arith)
]

-- After a thing was rooted with a notification, reset of the wrapper fails without a current
-- context. Once the context is destroyed the callback is called with that thing and its data, the
-- wrapper still gives the thing, and reset then passes its assertions with a current context or
-- without, and leaves the wrapper empty.
pub on_context_destroy-root_thing :
    (has_context : Bool) (m : MaybeOwned) (t : Thing) (func user_data : ℕ) {m' : MaybeOwned}
    → root_thing true m t (some (func, user_data)) ≡ some m'
    → (reset false m' ≡ none)
      × ((m'' : MaybeOwned) × (on_context_destroy m' ≡ some (m'', (t, func, user_data)))
          × (get m'' ≡ t)
          × (reset has_context m'' ≡ some new))
unfolding root_thing on_context_destroy get reset new rooted new_notifier disconnect
on_context_destroy-root_thing b m t func user_data {m'} e = (
  ground arith,
  (
    record m' { notify = some (record { connected = false; func = func; user_data = user_data }) },
    ground arith,
    ground arith,
    ground arith,
  ),
)
