-- ===== src/Closure/Lifetime.antt =====
-- A closure of gi/closure.cpp is alive or dead: what each event does to it.
use cjs.Prelude.{ℕ, suc, ◌-◌, ◌≡◌, refl, Bool, true, false, none, some, ==_refl, not, ◌||◌, arith}
use cjs.Root.{
  MaybeOwned, new, rooted, is_nullptr, get, reset, root_thing, assign, prevent_collection,
  teardown_rooting, on_context_destroy, new_notifier, disconnect,
}
use cjs.Function.Loops.{Ends}
use cjs.Closure.{
  GLib, GjsClosure, Notifier, closure_invalidated, closure_set_invalid, run_notifier,
  g_closure_invalidate, invalidate_js_pointers, global_context_finalized, context_destroyed,
  global_context_finalized_ptr, closure_ptr, gjs_closure_new,
}

-- The function as a closure holds it: rooted with a notifier, or in the heap slot.
abbrev pub held : Bool → ℕ → MaybeOwned
held true t = record {
  heap = none;
  root = some (some t);
  notify =
      some
        (record { connected = true; func = global_context_finalized_ptr; user_data = closure_ptr });
}
held false t = record { heap = some t; root = none; notify = none }

abbrev pub notifier_for : Bool → Notifier
notifier_for true = closure_invalidated
notifier_for false = closure_set_invalid

module _ (glib : GLib) where
  open glib use {is_invalid, invalidate, invalidate_marks, invalidate_once, new_is_valid}

  pub record IsAlive (root_function : Bool) (t : ℕ) (c : GjsClosure glib) : Type 0 where
    pub valid : is_invalid c.base ≡ false
    pub notifier : c.notifier ≡ notifier_for root_function
    pub callable : c.func ≡ held root_function t
    pub context_id : ℕ
    pub context : c.context ≡ some context_id

  pub record IsDead (c : GjsClosure glib) : Type 0 where
    pub invalid : is_invalid c.base ≡ true
    pub func : c.func ≡ new
    pub context : c.context ≡ none

  pub gjs_closure_new-IsAlive :
      (context t : ℕ) (root_function : Bool) (n : ℕ)
      → Ends
          (gjs_closure_new glib true context (some t) root_function n)
          (λ end. IsAlive root_function t end.0 × (end.1 ≡ suc n))
  unfolding gjs_closure_new new_notifier root_thing assign rooted new
  gjs_closure_new-IsAlive context t true n = (
    _,
    refl,
    (
      record {
        valid = new_is_valid;
        notifier = refl;
        callable = refl;
        context_id = context;
        context = refl;
      },
      refl,
    ),
  )
  gjs_closure_new-IsAlive context t false n = (
    _,
    refl,
    (
      record {
        valid = new_is_valid;
        notifier = refl;
        callable = refl;
        context_id = context;
        context = refl;
      },
      refl,
    ),
  )

  -- Invalidating a closure that is alive, with a current context if its function is rooted, kills it
  -- and lowers the counter.
  pub g_closure_invalidate-alive :
      (b root_function : Bool) (t : ℕ) (c : GjsClosure glib) (n : ℕ)
      → (not root_function || b) ≡ true
      → IsAlive root_function t c
      → Ends (g_closure_invalidate glib b (c, n)) (λ end. IsDead end.0 × (end.1 ≡ n - 1))
  unfolding g_closure_invalidate run_notifier is_nullptr reset rooted teardown_rooting
      prevent_collection new disconnect
  g_closure_invalidate-alive true true t c n context h = (
    (record c { base = (invalidate c.base).0; func = new; context = none }, n - 1),
    rw (g_closure_invalidate, invalidate_once c.base, h.valid, h.notifier, run_notifier, h.callable)
        refl,
    (record { invalid = invalidate_marks c.base; func = refl; context = refl }, refl),
  )
  g_closure_invalidate-alive false true t c n context h = absurd (ground arith)
  g_closure_invalidate-alive b false t c n context h = (
    (record c { base = (invalidate c.base).0; func = new; context = none }, n - 1),
    rw (g_closure_invalidate, invalidate_once c.base, h.valid, h.notifier, run_notifier, h.callable)
        refl,
    (record { invalid = invalidate_marks c.base; func = refl; context = refl }, refl),
  )

  -- A dead closure stays dead, and the counter stays.
  pub g_closure_invalidate-IsDead :
      (b : Bool) (c : GjsClosure glib) (n : ℕ)
      → IsDead c
      → Ends (g_closure_invalidate glib b (c, n)) (λ end. IsDead end.0 × (end.1 ≡ n))
  unfolding g_closure_invalidate
  g_closure_invalidate-IsDead b c n h = (
    (record c { base = (invalidate c.base).0 }, n),
    rw (g_closure_invalidate, invalidate_once c.base, h.invalid) refl,
    (record { invalid = invalidate_marks c.base; func = h.func; context = h.context }, refl),
  )

  -- The notification that the context is destroyed kills a closure whose function is rooted.
  pub context_destroyed-alive :
      (b : Bool) (t : ℕ) (c : GjsClosure glib) (n : ℕ)
      → IsAlive true t c
      → Ends (context_destroyed glib b (c, n)) (λ end. IsDead end.0 × (end.1 ≡ n - 1))
  unfolding context_destroyed on_context_destroy global_context_finalized invalidate_js_pointers
      g_closure_invalidate run_notifier is_nullptr get reset rooted teardown_rooting new disconnect
  context_destroyed-alive b t c n h = (
    (record c { base = (invalidate c.base).0; func = new; context = none }, n - 1),
    rw
        (
          context_destroyed,
          h.callable,
          ==_refl t,
          g_closure_invalidate,
          invalidate_once c.base,
          h.valid,
          h.notifier,
          run_notifier,
        )
        refl,
    (record { invalid = invalidate_marks c.base; func = refl; context = refl }, refl),
  )
