-- ===== src/Function/Releases.antt =====
-- Which arguments gjs_invoke_c_function (gi/function.cpp) releases, and in which order.
use mathlib.Core.List.{append_assoc, append-nil}
use cjs.Prelude.Options.{◌>>=◌}
use cjs.Prelude.{
  ℕ, zero, suc, ◌+◌, ◌≡◌, refl, sym, ap, ◌∙◌, Bool, true, false, Option, none, some, List, [], ◌∷◌,
  if◌then◌else◌, ◌==◌, ◌&&◌, ◌||◌, not, ltb, arith, ◌++◌, take,
}
use cjs.Cache.Defs.{ArgumentCache}
use cjs.Function.Init.{Function, ArgPos, all_caches}
use cjs.Function.Engine.{Engine}
use cjs.Function.Invoke.{Outcome, ReleaseEnd, bool_nat, has_table, release_loop, is_return_at}
use cjs.Function.Call.{conclude, set_rval, finish}
use cjs.Function.Order.{Call, releases, recording, Every, Every-if, Every-some, Every-none}

-- The calls of `release` for caches: none for a skipped one after a failure, and none for a return
-- value that is kept.
abbrev pub released :
    {Value : Type 0}
    → (keep failed completed : Bool) → List (ArgPos × ArgumentCache)
    → List (Call Value)
released keep failed completed [] = []
released keep failed completed ((pos, cache) ∷ rest) =
    if (failed && cache.skip_in) || (keep && is_return_at pos)
    then released keep failed completed rest
    else releases completed pos ∷ released keep failed completed rest

module _ {State Value : Type 0} (engine : Engine State Value) where
  Log : Type 0
  Log = List (Call Value)

  if_true : {A : Type 0} (b : Bool) {x : A} (y : A) → b ≡ true → (if b then x else y) ≡ x
  if_true b y e = rw e refl

  if_false : {A : Type 0} (b : Bool) (x : A) {y : A} → b ≡ false → (if b then x else y) ≡ y
  if_false b x e = rw e refl

  Logged : List (Call Value) → List (Call Value) → ReleaseEnd (State × List (Call Value)) → Type 0
  Logged log calls end = end.state.1 ≡ log ++ calls

  release_loop-released :
      (keep failed completed : Bool) (m : ℕ) (caches : List (ArgPos × ArgumentCache)) (top n : ℕ)
      (bad : Bool) (s : State) (log : List (Call Value))
      → top ≡ n + m
      → Every
          (release_loop (recording engine) keep failed completed top caches n bad (s, log))
          (Logged log (released keep failed completed (take m caches)))
  unfolding release_loop Logged
  release_loop-released keep failed completed zero [] top n bad s log at =
      Every-some (Logged log []) _ (sym (append-nil log))
  release_loop-released keep failed completed zero ((pos, cache) ∷ rest) top n bad s log at =
      Every-if (not (ltb n top)) (λ _. Every-some (Logged log []) _ (sym (append-nil log)))
        λ more. absurd (ground arith)
  release_loop-released keep failed completed (suc m) [] top n bad s log at =
      Every-some (Logged log []) _ (sym (append-nil log))
  release_loop-released keep failed completed (suc m) ((pos, cache) ∷ rest) top n bad s log at =
      Every-if (not (ltb n top)) (λ done. absurd (ground arith))
        λ _.
          Every-if (failed && cache.skip_in)
            (λ left end e.
              release_loop-released keep failed completed m rest top (suc n) bad s log (omega arith)
                end e
              ∙ ap (λ calls. log ++ calls)
                  (sym (if_true skips (releases completed pos ∷ later) (ground arith))))
            λ taken.
              Every-if (keep && is_return_at pos)
                (λ kept end e.
                  release_loop-released keep failed completed m rest top (suc n) bad
                    (engine.save_return s) log (omega arith) end e
                  ∙ ap (λ calls. log ++ calls)
                      (sym (if_true skips (releases completed pos ∷ later) (ground arith))))
                λ plain.
                  Every-if (not (has_table cache))
                    (λ _. Every-none (
                      Logged log
                        (released keep failed completed (take (suc m) ((pos, cache) ∷ rest)))))
                    λ _ end e.
                      release_loop-released keep failed completed m rest top (suc n) _ _
                        (log ++ (releases completed pos ∷ [])) (omega arith) end e
                      ∙ append_assoc log (releases completed pos ∷ []) later
                      ∙ ap (λ calls. log ++ calls) (sym (if_false skips later (ground arith)))
    where
      skips : Bool
      skips = (failed && cache.skip_in) || (keep && is_return_at pos)

      later : List (Call Value)
      later = released keep failed completed (take m rest)

  Every->>= :
      {A B : Type 0} (P : A → Type 0) (Q : B → Type 0) (o : Option A) {f : A → Option B}
      → Every o P
      → ((a : A) → P a → Every (f a) Q)
      → Every (o >>= f) Q
  Every->>= P Q none h k = Every-none Q
  Every->>= P Q (some a) h k = k a (h a refl)

  Ended : List (Call Value) → Outcome Value × (State × List (Call Value)) → Type 0
  Ended log result = result.1.1 ≡ log

  conclude-Ended :
      (function : Function) (keep failed did_throw : Bool) (values : List Value)
      (s : State × List (Call Value))
      → Every (conclude (recording engine) function keep failed did_throw values s) (Ended s.1)
  unfolding conclude set_rval Ended
  conclude-Ended function keep true did_throw values s = Every-some (Ended s.1) _ refl
  conclude-Ended function keep false true values s = Every-some (Ended s.1) _ refl
  conclude-Ended function true false false values s = Every-some (Ended s.1) _ refl
  conclude-Ended function false false false values s =
      Every-if (ltb 0 function.js_out_argc)
        (λ _.
          Every-if (function.js_out_argc == 1) (λ _. first values)
            λ _. array (engine.new_array values s.0).0 (engine.new_array values s.0).1)
        (λ _. Every-some (Ended s.1) _ refl)
    where
      first :
          (values : List Value)
          → Every
              (elim values [ [] ↦ none | value ∷ _ ↦ some (Outcome.returned value, s) ])
              (Ended s.1)
      first [] = Every-none (Ended s.1)
      first (v ∷ vs) = Every-some (Ended s.1) _ refl

      array :
          (made : Option Value) (t : State)
          → Every
              (elim made [
                | none ↦ some (Outcome.threw, (t, s.1))
                | some value ↦ some (Outcome.returned value, (t, s.1))
              ])
              (Ended s.1)
      array none t = Every-some (Ended s.1) _ refl
      array (some value) t = Every-some (Ended s.1) _ refl

  -- The end of a call whose arguments are processed up to a number, of a method together with the
  -- instance: what is released is the instance, the return value and the arguments up to that
  -- number, each once and in order, as transferred to the C function only if nothing failed; after
  -- a failure those that are skipped on the way in are left out, and the return value is left out
  -- where it is kept.
  pub finish-released :
      (function : Function) (keep : Bool) (failed did_throw : Bool) (n : ℕ) (values : List Value)
      (s : State) (result : Outcome Value × (State × List (Call Value)))
      → finish (recording engine) function keep (record {
        failed = failed;
        did_throw_gerror = did_throw;
        processed_c_args = bool_nat function.info.is_method + n;
        return_values = values;
        state = (s, []);
      })
        ≡ some result
      → result.1.1
        ≡ released keep failed
            (not failed && not did_throw)
            (take (bool_nat function.info.is_method + suc n) (all_caches function))
  unfolding finish Logged Ended
  finish-released function keep failed did_throw n values s result e =
      Every->>= (Logged [] calls) (Ended calls) _
        (release_loop-released keep failed (not failed && not did_throw)
          (bool_nat function.info.is_method + suc n) (all_caches function)
          (bool_nat function.info.is_method + n + (bool_nat function.info.is_method + 1))
          (bool_nat function.info.is_method) false s [] (omega arith))
        (λ end logged.
          Every-if
            (end.ffi_arg_pos
              == bool_nat function.info.is_method + n + (bool_nat function.info.is_method + 1))
            (λ _ r done.
              conclude-Ended function keep (failed || end.release_failed) did_throw values end.state
                r done
              ∙ logged)
            λ _. Every-none (Ended calls))
        result e
    where
      calls : List (Call Value)
      calls =
          released keep failed (not failed && not did_throw)
            (take (bool_nat function.info.is_method + suc n) (all_caches function))
