-- ===== src/Closure.antt =====
-- The closures of gi/closure.cpp: a GClosure that calls a JavaScript function, and the ways in which
-- it becomes invalid.
pub mod Lifetime
pub mod Protocol
pub mod Invoking
mod Examples
use cjs.Prelude.Options.{◌>>=◌}
use cjs.Prelude.{ℕ, suc, ◌-◌, ◌≡◌, Bool, true, false, Option, none, some, if◌then◌else◌, ◌==◌, not}
use cjs.Root.{
  Thing, MaybeOwned, new, is_nullptr, get, reset, root_thing, assign, prevent_collection,
  on_context_destroy,
}

-- What gi/closure.cpp uses of GLib. Invalidating a closure calls its invalidation notifiers, which
-- the Boolean says, but only the first time.
pub record GLib : Type 1 where
  pub Base : Type 0
  pub g_closure_new_simple : Base
  pub is_invalid : Base → Bool
  pub invalidate : Base → Base × Bool
  pub new_is_valid : is_invalid g_closure_new_simple ≡ false
  pub invalidate_marks : (base : Base) → is_invalid (invalidate base).0 ≡ true
  pub invalidate_once : (base : Base) → (invalidate base).1 ≡ not (is_invalid base)

-- The invalidation notifier that gjs_closure_new adds.
pub data Notifier : Type 0 where
  closure_invalidated closure_set_invalid : Notifier

-- The address of global_context_finalized, and of the closure, as GjsMaybeOwned is given them.
abbrev pub global_context_finalized_ptr : ℕ
global_context_finalized_ptr = 1

abbrev pub closure_ptr : ℕ
closure_ptr = 1

module _ (glib : GLib) where
  open glib use {Base, g_closure_new_simple, is_invalid, invalidate}

  -- A GjsClosure with its private part. `context` is a JSContext.
  pub record GjsClosure : Type 0 where
    pub base : Base
    pub notifier : Notifier
    pub context : Option ℕ
    pub func : MaybeOwned

  -- A closure, and the counter of closures.
  abbrev pub State : Type 0
  State = GjsClosure × ℕ

  abbrev dead : ℕ → GjsClosure → MaybeOwned → Option State
  dead counter c func = some (record c { func = func; context = none }, counter)

  -- The two invalidation notifiers. `has_context` says whether there is a current GjsContext, as in
  -- Root.
  unfoldable pub run_notifier : (has_context : Bool) → Notifier → State → Option State
  unfolding is_nullptr reset prevent_collection
  run_notifier has_context closure_invalidated (c, counter) =
      if is_nullptr c.func
      then some (c, counter - 1)
      else reset has_context c.func >>= dead (counter - 1) c
  run_notifier has_context closure_set_invalid (c, counter) = do
    held ← prevent_collection c.func
    func ← reset has_context held
    dead (counter - 1) c func

  unfoldable pub g_closure_invalidate : (has_context : Bool) → State → Option State
  unfolding run_notifier
  g_closure_invalidate has_context (c, counter) =
      let (base, calls) = invalidate c.base in
      let marked = record c { base = base } in
      if calls
      then run_notifier has_context c.notifier (marked, counter)
      else some (marked, counter)

  unfoldable pub invalidate_js_pointers : (has_context : Bool) → State → Option State
  unfolding g_closure_invalidate is_nullptr reset
  invalidate_js_pointers has_context (c, counter) =
      if is_nullptr c.func then some (c, counter) else do
        func ← reset has_context c.func
        (dying, counter') ← dead counter c func
        g_closure_invalidate has_context (dying, counter')

  abbrev same_thing : Thing → Thing → Bool
  same_thing none none = true
  same_thing (some a) (some b) = a == b
  same_thing _ _ = false

  unfoldable pub global_context_finalized : (has_context : Bool) → Thing → State → Option State
  unfolding invalidate_js_pointers is_nullptr get
  global_context_finalized has_context func (c, counter) =
      if is_nullptr c.func
      then some (c, counter)
      else if same_thing (get c.func) func
      then invalidate_js_pointers has_context (c, counter)
      else none

  -- The context is destroyed: the notifier of a rooted function calls global_context_finalized.
  unfoldable pub context_destroyed : (has_context : Bool) → State → Option State
  unfolding global_context_finalized on_context_destroy
  context_destroyed has_context (c, counter) = do
    (func, (thing, _, _)) ← on_context_destroy c.func
    global_context_finalized has_context thing (record c { func = func }, counter)

  -- The last reference goes: GLib invalidates the closure, and closure_finalize runs the destructor
  -- of the private part.
  unfoldable pub finalize : (has_context : Bool) → State → Option ℕ
  unfolding g_closure_invalidate
  finalize has_context (c, counter) =
      g_closure_invalidate has_context (c, counter) >>= λ end. some end.1

  unfoldable pub gjs_closure_is_valid : GjsClosure → Bool
  gjs_closure_is_valid c = elim c.context [ none ↦ false | some _ ↦ true ]

  unfoldable pub gjs_closure_get_callable : GjsClosure → Thing
  unfolding get
  gjs_closure_get_callable c = get c.func

  unfoldable pub gjs_closure_new : (has_context : Bool) → ℕ → Thing → Bool → ℕ → Option State
  unfolding root_thing assign
  gjs_closure_new has_context context callable root_function counter =
      if root_function
      then (root_thing has_context new callable (some (global_context_finalized_ptr, closure_ptr))
          >>= λ func. some (
            record {
              base = g_closure_new_simple;
              notifier = closure_invalidated;
              context = some context;
              func = func;
            },
            suc counter,
          ))
      else (assign new callable >>= λ func. some (
        record {
          base = g_closure_new_simple;
          notifier = closure_set_invalid;
          context = some context;
          func = func;
        },
        suc counter,
      ))

  -- What gjs_closure_invoke uses of the engine. `call` may do anything to the closure as well; the
  -- first Boolean is what JS::Call returns.
  pub record Engine (World Value : Type 0) : Type 0 where
    pub log_exception : World → World
    pub call : Thing → GjsClosure × World → (Bool × Value) × (GjsClosure × World)
    pub is_exception_pending : World → Bool
    pub get_pending_exception : World → Value
    pub log_exception_uncaught : World → World
    pub undefined : Value
    pub schedule_gc_if_needed : World → World

  -- The result, and what is written to `retval`, if anything is.
  unfoldable pub gjs_closure_invoke :
      {World Value : Type 0}
      → Engine World Value
      → (return_exception : Bool) → GjsClosure × World
      → (Bool × Option Value) × (GjsClosure × World)
  unfolding is_nullptr get
  gjs_closure_invoke engine return_exception (c, w) =
      if is_nullptr c.func
      then ((false, none), (record c { context = none }, w))
      else (let ((ok, value), (c', w')) = engine.call (get c.func) (c, engine.log_exception w) in
          if ok
          then (
            (true, some value),
            (c', engine.schedule_gc_if_needed (engine.log_exception_uncaught w')),
          )
          else if engine.is_exception_pending w'
          then (if return_exception
              then ((false, some (engine.get_pending_exception w')), (c', w'))
              else ((false, some value), (c', engine.log_exception_uncaught w')))
          else ((false, some engine.undefined), (c', w')))
