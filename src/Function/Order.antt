-- ===== src/Function/Order.antt =====
-- The order in which gjs_invoke_c_function (gi/function.cpp) converts and releases arguments, by
-- what is recorded of the calls that it makes.
use mathlib.Core.List.{append_assoc, append-nil}
use mathlib.Core.Path.{subst}
use mathlib.Core.Option.{some-injective}
use cjs.Prelude.{
  ℕ, zero, suc, ◌+◌, ◌<◌, ◌≤◌, ◌≡◌, refl, sym, ap, ◌∙◌, Bool, true, false, Option, none, some, List,
  [], ◌∷◌, if◌then◌else◌, not, arith, get_elem?, length, ◌++◌, take, drop,
}
use cjs.Cache.Defs.{ArgumentCache}
use cjs.Cache.Tables.{has_in}
use cjs.Function.Init.{ArgPos}
use cjs.Function.Engine.{Engine}
use cjs.Function.Invoke.{InEnd, or_else, has_table, in_loop}

-- A marshaller is called, to convert a value or to release what it made.
pub data Call (Value : Type 0) : Type 0 where
  converts : ArgPos × ArgumentCache → Value → Call Value
  releases : (call_completed : Bool) → ArgPos → Call Value

-- The same engine, with the calls of `in` and `release` recorded.
abbrev pub recording :
    {State Value : Type 0} → Engine State Value → Engine (State × List (Call Value)) Value
recording engine = record {
  undefined = engine.undefined;
  complete_async_calls = λ (s, log). (engine.complete_async_calls s, log);
  warn_too_many = λ (s, log). let (r, s') = engine.warn_too_many s in (r, (s', log));
  compute_this = λ (s, log). let (r, s') = engine.compute_this s in (r, (s', log));
  set_instance_object = λ v (s, log). (engine.set_instance_object v s, log);
  marshal_in = λ pos cache v (s, log).
      let (r, s') = engine.marshal_in pos cache v s in
      (r, (s', log ++ (converts (pos, cache) v ∷ [])));
  ffi_call = λ pointers (s, log). (engine.ffi_call pointers s, log);
  has_local_error = λ (s, log). engine.has_local_error s;
  set_undefined = λ (s, log). (engine.set_undefined s, log);
  extract_return = λ (s, log). (engine.extract_return s, log);
  marshal_out =
      λ pos cache (s, log). let (r, s') = engine.marshal_out pos cache s in (r, (s', log));
  append = λ v (s, log). let (r, s') = engine.append v s in (r, (s', log));
  release = λ completed pos cache (s, log).
      let (r, s') = engine.release completed pos cache s in
      (r, (s', log ++ (releases completed pos ∷ [])));
  save_return = λ (s, log). (engine.save_return s, log);
  new_array = λ values (s, log). let (r, s') = engine.new_array values s in (r, (s', log));
  nargs = engine.nargs;
  is_object_or_interface = engine.is_object_or_interface;
}

-- How many of the caches are filled from a JavaScript argument.
abbrev pub wanted : List (ArgPos × ArgumentCache) → ℕ
wanted [] = 0
wanted ((_, cache) ∷ rest) = if cache.skip_in then wanted rest else suc (wanted rest)

abbrev pub converted : {Value : Type 0} → List (Call Value) → List (ArgPos × ArgumentCache)
converted [] = []
converted (converts at _ ∷ rest) = at ∷ converted rest
converted (releases _ _ ∷ rest) = converted rest

-- The values that are given to caches that are not skipped.
abbrev pub delivered : {Value : Type 0} → List (Call Value) → List Value
delivered [] = []
delivered (converts at v ∷ rest) = if (at.1).skip_in then delivered rest else v ∷ delivered rest
delivered (releases _ _ ∷ rest) = delivered rest

-- Every result has a property.
abbrev pub Every {ℓ κ} : {A : Type ℓ} → Option A → (A → Type κ) → Type (ℓ ⊔ κ)
Every {A = A} o P = (a : A) → o ≡ some a → P a

pub Every-if {ℓ κ} :
    {A : Type ℓ} {P : A → Type κ} (b : Bool) {x y : Option A}
    → (b ≡ true → Every x P)
    → (b ≡ false → Every y P)
    → Every (if b then x else y) P
Every-if true h k = h refl
Every-if false h k = k refl

pub Every-some {ℓ κ} : {A : Type ℓ} (P : A → Type κ) (a : A) → P a → Every (some a) P
Every-some P a h b e = subst P (some-injective _ _ e) h

pub Every-none {ℓ κ} : {A : Type ℓ} (P : A → Type κ) (b : A) → none ≡ some b → P b
Every-none P b e = absurd (ground arith)

module _ {State Value : Type 0} (engine : Engine State Value) where
  drop-get_elem? :
      (args : List Value) (n : ℕ)
      → n < length args
      → drop n args ≡ or_else engine.undefined (get_elem? args n) ∷ drop (suc n) args
  drop-get_elem? [] n h = absurd (omega arith)
  drop-get_elem? (x ∷ xs) zero h = refl
  drop-get_elem? (x ∷ xs) (suc n) h = drop-get_elem? xs n (omega arith)

  pub record InOrder (args : List Value) (js : ℕ) (caches : List (ArgPos × ArgumentCache))
      (log : List (Call Value)) (end : InEnd (State × List (Call Value))) : Type 0 where
    pub calls : List (Call Value)
    pub recorded : end.state.1 ≡ log ++ calls
    pub each : end.failed ≡ false → converted calls ≡ caches
    pub values :
        end.failed ≡ false
        → js + wanted caches ≤ length args
        → delivered calls ≡ take (wanted caches) (drop js args)

  in_loop-InOrder :
      (args : List Value) (caches : List (ArgPos × ArgumentCache)) (js processed : ℕ) (s : State)
      (log : List (Call Value))
      → Every
          (in_loop (recording engine) args caches js processed (s, log))
          (InOrder args js caches log)
  unfolding in_loop
  in_loop-InOrder args [] js processed s log = Every-some (InOrder _ _ _ _) _ (record {
    calls = [];
    recorded = sym (append-nil log);
    each = λ _. refl;
    values = λ _ _. refl;
  })
  in_loop-InOrder args ((pos, cache) ∷ rest) js processed s log =
      Every-if (not (has_table cache)) (λ _. Every-none (InOrder _ _ _ _))
        λ _.
          Every-if (not (has_in cache.marshallers))
            (λ _. Every-some (InOrder _ _ _ _) _ (record {
              calls = [];
              recorded = sym (append-nil log);
              each = λ e. absurd (ground arith);
              values = λ e. absurd (ground arith);
            }))
            λ _.
              Every-if (not tried.0)
                (λ _. Every-some (InOrder _ _ _ _) _ (record {
                  calls = now;
                  recorded = refl;
                  each = λ e. absurd (ground arith);
                  values = λ e. absurd (ground arith);
                }))
                λ _ end e.
                  let later =
                    in_loop-InOrder args rest (if cache.skip_in then js else suc js) (suc processed)
                      tried.1 (log ++ now) end e in
                  record {
                    calls = converts (pos, cache) value ∷ later.calls;
                    recorded = later.recorded ∙ append_assoc log now later.calls;
                    each = λ fine. ap (λ cs. (pos, cache) ∷ cs) (later.each fine);
                    values = λ fine enough. by_skip cache.skip_in (later.values fine) enough;
                  }
    where
      value : Value
      value = or_else engine.undefined (get_elem? args js)

      now : List (Call Value)
      now = converts (pos, cache) value ∷ []

      tried : Bool × State
      tried = engine.marshal_in pos cache value s

      by_skip :
          (b : Bool) {vs : List Value}
          → ((if b then js else suc js) + wanted rest ≤ length args
              → vs ≡ take (wanted rest) (drop (if b then js else suc js) args))
          → js + (if b then wanted rest else suc (wanted rest)) ≤ length args
          → (if b then vs else value ∷ vs)
            ≡ take (if b then wanted rest else suc (wanted rest)) (drop js args)
      by_skip true h enough = h enough
      by_skip false h enough =
          rw (drop-get_elem? args js (omega arith)) (ap (λ vs. value ∷ vs) (h (omega arith)))

  -- A call whose arguments all convert has converted every argument once, in order, and the caches
  -- that are not skipped were given the first JavaScript arguments, each one once and in order,
  -- where there are enough of them.
  pub in_loop_order :
      (args : List Value) (caches : List (ArgPos × ArgumentCache)) (processed : ℕ) (s : State)
      (end : InEnd (State × List (Call Value)))
      → in_loop (recording engine) args caches 0 processed (s, []) ≡ some end
      → end.failed ≡ false
      → wanted caches ≤ length args
      → (converted end.state.1 ≡ caches) × (delivered end.state.1 ≡ take (wanted caches) args)
  in_loop_order args caches processed s end e fine enough =
      let order = in_loop-InOrder args caches 0 processed s [] end e in
      (
        ap converted order.recorded ∙ order.each fine,
        ap delivered order.recorded ∙ order.values fine (omega (arith, enough)),
      )
