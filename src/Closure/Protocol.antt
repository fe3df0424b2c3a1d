-- ===== src/Closure/Protocol.antt =====
-- What becomes of a closure of gi/closure.cpp, whatever happens to it and in whatever order.
use mathlib.Core.Path.{subst}
use cjs.Prelude.Options.{◌>>=◌}
use cjs.Prelude.{
  ℕ, suc, ◌≡◌, refl, Bool, true, false, Option, none, some, List, [], ◌∷◌, arith, ◌||◌, not, sym,
  ap, ◌∙◌, if◌then◌else◌,
}
use cjs.Root.{new, get, rooted, Notifier}
use cjs.Function.Loops.{Ends}
use cjs.Closure.{
  GLib, GjsClosure, State, g_closure_invalidate, context_destroyed, finalize, gjs_closure_is_valid,
  gjs_closure_get_callable, gjs_closure_new,
}
use cjs.Closure.Lifetime.{
  held, IsAlive, IsDead, gjs_closure_new-IsAlive, g_closure_invalidate-alive,
  g_closure_invalidate-IsDead, context_destroyed-alive,
}

-- What happens to a closure: somebody invalidates it, or its context is destroyed.
pub data Event : Type 0 where
  invalidates context_dies : Event

abbrev pub kills : Bool → Event → Bool
kills root_function invalidates = true
kills root_function context_dies = root_function

-- Whether a closure is dead after some events.
abbrev pub killed : Bool → Bool → List Event → Bool
killed gone root_function [] = gone
killed gone root_function (event ∷ events) =
    killed (gone || kills root_function event) root_function events

-- Whether there is a current context after an event: until the context is destroyed.
abbrev pub still : Bool → Event → Bool
still has_context invalidates = has_context
still has_context context_dies = false

abbrev pub lasts : Bool → List Event → Bool
lasts has_context [] = has_context
lasts has_context (event ∷ events) = lasts (still has_context event) events

-- A closure that roots its function and is not dead has the context that it waits for.
abbrev Waits : Bool → Bool → Bool → Type 0
Waits gone root_function has_context = (gone || (not root_function || has_context)) ≡ true

Waits-kept :
    (event : Event) (gone root_function has_context : Bool)
    → Waits gone root_function has_context
    → Waits (gone || kills root_function event) root_function (still has_context event)
Waits-kept event gone root_function has_context h = ground arith

Waits-lasts :
    (events : List Event) (gone root_function has_context : Bool)
    → Waits gone root_function has_context
    → Waits (killed gone root_function events) root_function (lasts has_context events)
Waits-lasts [] gone root_function has_context h = h
Waits-lasts (event ∷ events) gone root_function has_context h =
    Waits-lasts events (gone || kills root_function event) root_function (still has_context event)
      (Waits-kept event gone root_function has_context h)

started : (root_function : Bool) → Waits false root_function true
started true = refl
started false = refl

get-held : (root_function : Bool) (t : ℕ) → get (held root_function t) ≡ some t
unfolding get rooted
get-held true t = refl
get-held false t = refl

module _ (glib : GLib) where
  -- The context notifies only the closures that asked for it.
  abbrev told : Bool → Option Notifier → State glib → Option (State glib)
  told has_context o s = elim o [ none ↦ some s | some _ ↦ context_destroyed glib has_context s ]

  abbrev pub deliver : (has_context : Bool) → Event → State glib → Option (State glib)
  deliver has_context invalidates s = g_closure_invalidate glib has_context s
  deliver has_context context_dies s = told has_context s.0.func.notify s

  abbrev pub run : (has_context : Bool) → List Event → State glib → Option (State glib)
  run has_context [] s = some s
  run has_context (event ∷ events) s =
      deliver has_context event s >>= run (still has_context event) events

  abbrev Is : Bool → Bool → ℕ → GjsClosure glib → Type 0
  Is true root_function t c = IsDead glib c
  Is false root_function t c = IsAlive glib root_function t c

  abbrev left : Bool → ℕ → ℕ
  left true n = n
  left false n = suc n

  -- One event.
  deliver-Is :
      (event : Event) (b gone root_function : Bool) (t n : ℕ) (c : GjsClosure glib)
      → Waits gone root_function b
      → Is gone root_function t c
      → Ends (deliver b event (c, left gone n)) λ end.
        Is (gone || kills root_function event) root_function t end.0
        × (end.1 ≡ left (gone || kills root_function event) n)
  unfolding new
  deliver-Is invalidates b true root_function t n c k h = g_closure_invalidate-IsDead glib b c n h
  deliver-Is invalidates b false root_function t n c k h =
      let (end, e, (law, count)) =
        g_closure_invalidate-alive glib b root_function t c (suc n) k h in
      (end, e, (law, omega (arith, count)))
  deliver-Is context_dies b true root_function t n c k h =
      ((c, n), ap (λ m. told b m.notify (c, n)) h.func, (h, refl))
  deliver-Is context_dies b false false t n c k h =
      ((c, suc n), ap (λ m. told b m.notify (c, suc n)) h.callable, (h, refl))
  deliver-Is context_dies b false true t n c k h =
      let (end, e, (law, count)) = context_destroyed-alive glib b t c (suc n) h in
      (end, ap (λ m. told b m.notify (c, suc n)) h.callable ∙ e, (law, omega (arith, count)))

  run-Is :
      (events : List Event) (b gone root_function : Bool) (t n : ℕ) (c : GjsClosure glib)
      → Waits gone root_function b
      → Is gone root_function t c
      → Ends (run b events (c, left gone n)) λ end.
        Is (killed gone root_function events) root_function t end.0
        × (end.1 ≡ left (killed gone root_function events) n)
  run-Is [] b gone root_function t n c k h = ((c, left gone n), refl, (h, refl))
  run-Is (event ∷ events) b gone root_function t n c k h =
      let ((c', m), e, (law, count)) = deliver-Is event b gone root_function t n c k h in
      let (end, f, rest) =
        run-Is events (still b event) (gone || kills root_function event) root_function t n c'
          (Waits-kept event gone root_function b k) law in
      (
        end,
        ap (λ o. o >>= run (still b event) events) e
            ∙ ap (λ k. run (still b event) events (c', k)) count
            ∙ f,
        rest,
      )

  -- What the callers of gi/closure.cpp can tell of a closure, and the counter when it is freed.
  pub record Visible (gone has_context : Bool) (t n : ℕ) (s : State glib) : Type 0 where
    pub valid : gjs_closure_is_valid glib s.0 ≡ not gone
    pub callable : gjs_closure_get_callable glib s.0 ≡ (if gone then none else some t)
    pub counter : s.1 ≡ (if gone then n else suc n)
    pub freed : finalize glib has_context s ≡ some n

  Visible-of :
      (gone root_function b : Bool) (t n : ℕ) (c : GjsClosure glib)
      → Waits gone root_function b
      → Is gone root_function t c
      → Visible gone b t n (c, left gone n)
  unfolding gjs_closure_is_valid gjs_closure_get_callable get new rooted finalize
  Visible-of true root_function b t n c w h =
      let (end, e, (_, count)) = g_closure_invalidate-IsDead glib b c n h in
      record {
        valid = rw h.context refl;
        callable = ap get h.func;
        counter = refl;
        freed = ap (λ o. o >>= λ x. some x.1) e ∙ ap (λ k. some k) count;
      }
  Visible-of false root_function b t n c w h =
      let (end, e, (_, count)) = g_closure_invalidate-alive glib b root_function t c (suc n) w h in
      record {
        valid = rw h.context refl;
        callable = ap get h.callable ∙ get-held root_function t;
        counter = refl;
        freed = ap (λ o. o >>= λ x. some x.1) e ∙ ap (λ k. some k) (omega (arith, count));
      }

  -- A closure that is created for a function with a current context, which there is until the context
  -- is destroyed and not after, and then lives through any invalidations and
  -- destructions of the context, in any order, fails no assertion: it is valid and gives its
  -- function until the first event that concerns it and never after, the counter of closures is
  -- lowered exactly once, and freeing the closure at any time leaves the counter as it was before
  -- the closure was made. The destruction of the context concerns only a closure that roots its
  -- function.
  pub gjs_closure_new-Ends :
      (context t n : ℕ) (root_function : Bool) (events : List Event)
      → Ends
          (gjs_closure_new glib true context (some t) root_function n >>= run true events)
          (Visible (killed false root_function events) (lasts true events) t n)
  gjs_closure_new-Ends context t n root_function events =
      let ((c, m), e, (alive, count)) = gjs_closure_new-IsAlive glib context t root_function n in
      let ((c', m'), f, (law, count')) =
        run-Is events true false root_function t n c (started root_function) alive in
      let gone = killed false root_function events in
      (
        (c', m'),
        ap (λ o. o >>= run true events) e ∙ ap (λ k. run true events (c, k)) count ∙ f,
        subst (λ k. Visible gone (lasts true events) t n (c', k)) (sym count')
            (Visible-of gone root_function (lasts true events) t n c'
              (Waits-lasts events false root_function true (started root_function)) law),
      )
