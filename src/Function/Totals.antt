-- ===== src/Function/Totals.antt =====
-- What init_cached_function_data (gi/function.cpp) leaves in js_in_argc and js_out_argc.
use mathlib.Core.Path.{subst}
use cjs.Prelude.{
  ℕ, zero, suc, ◌+◌, ◌%◌, ◌≤◌, ◌≡◌, refl, sym, ap, ◌∙◌, Bool, true, false, none, some, List, [],
  ◌∷◌, if◌then◌else◌, not, arith, get_elem?, length, Bool-cases, Option-cases, inl, inr, replicate,
  take,
}
use cjs.Gi.{TypeSystem, ArgInfo, CallableInfo}
use cjs.Cache.Marshallers.{Marshallers}
use cjs.Cache.Defs.{
  Contents, ArgumentCache, new0, Result, ok, set_skip_all, set_return_value, array_pos,
}
use cjs.Cache.Writes.{EvenFrom, sum_to, behind-EvenFrom, length-modify}
use cjs.Cache.Effect.{takes, gives, set_skip_all-IsEven, length_out-IsEven}
use cjs.Cache.Build.{tag_of, build_return, modify, length_out, is_void, is_array}
use cjs.Function.Init.{
  Function, Progress, bump, init_args, init_instance, init_cached_function_data,
}
use cjs.Function.Counts.{AllForward, Counted, ok_of_bind, args-Counted, bit-le}

abbrev Returned : Type 0
Returned = ArgumentCache × List ArgumentCache × Bool

length-replicate_new0 : (n : ℕ) (c : ArgumentCache) → length (replicate n c) ≡ n
length-replicate_new0 zero c = refl
length-replicate_new0 (suc n) c = ap suc (length-replicate_new0 n c)

replicate-even :
    (n : ℕ) (x : ArgumentCache) (j : ℕ) (c : ArgumentCache)
    → get_elem? (replicate n x) j ≡ some c
    → c ≡ x
replicate-even zero x j c e = absurd (ground arith)
replicate-even (suc n) x zero c e = ground arith
replicate-even (suc n) x (suc j) c e = replicate-even n x j c e

length-take_all : (n : ℕ) (xs : List ArgInfo) → length xs ≡ n → take n xs ≡ xs
length-take_all zero [] e = refl
length-take_all zero (x ∷ xs) e = absurd (omega arith)
length-take_all (suc n) [] e = absurd (omega arith)
length-take_all (suc n) (x ∷ xs) e = ap (λ ys. x ∷ ys) (length-take_all n xs (omega arith))

abbrev same : Returned → Result Returned
same r = ok r

from : Returned → Result Returned → Returned
from d (ok r) = r
from d _ = d

-- What the return value leaves in the caches of the arguments.
record Returns (xs : List ArgumentCache) (r : Returned) : Type 0 where
  outs : bump r.2 0 ≡ gives r.0
  whole : length r.1 ≡ length xs
  even : EvenFrom 0 xs → EvenFrom 0 r.1

ok-injective : (m r : Returned) → same m ≡ same r → m ≡ r
unfolding from
ok-injective m r e = ap (from m) e

skipped-Returns :
    (c : ArgumentCache) (xs : List ArgumentCache) (r : Returned)
    → same (set_skip_all c, xs, false) ≡ same r
    → Returns xs r
unfolding set_skip_all
skipped-Returns c xs r e =
    subst (Returns xs) (ok-injective _ r e) (record { outs = refl; whole = refl; even = λ h. h })

plain-Returns :
    (c : ArgumentCache) (xs : List ArgumentCache) (r : Returned)
    → c.skip_out ≡ false
    → same (c, xs, true) ≡ same r
    → Returns xs r
plain-Returns c xs r given e =
    subst (Returns xs) (ok-injective _ r e)
      (record { outs = ground (arith, given); whole = refl; even = λ h. h })

array-Returns :
    (c : ArgumentCache) (xs : List ArgumentCache) (p pos : ℕ) (r : Returned)
    → c.skip_out ≡ false
    → same (c, modify (modify xs p set_skip_all) p (length_out pos), true) ≡ same r
    → Returns xs r
array-Returns c xs p pos r given e = subst (Returns xs) (ok-injective _ r e) (record {
  outs = ground (arith, given);
  whole =
      length-modify (modify xs p set_skip_all) p (length_out pos) ∙ length-modify xs p set_skip_all;
  even = λ h.
      behind-EvenFrom 0 (modify xs p set_skip_all) p (length_out pos) (length_out-IsEven pos)
        (behind-EvenFrom 0 xs p set_skip_all set_skip_all-IsEven h);
})

abbrev tagged : CallableInfo → ArgumentCache
tagged callable = record (set_return_value (record new0 { type_tag = callable.return_type.tag })) {
  transfer = callable.caller_owns;
}

build_return_lem :
    (callable : CallableInfo) (xs : List ArgumentCache) (r : Returned)
    → build_return callable new0 xs ≡ ok r
    → Returns xs r
unfolding build_return set_return_value new0
build_return_lem callable xs r e = elim (Bool-cases (is_void callable.return_type.tag)) [
  | inl void ↦
      skipped-Returns (record new0 { type_tag = callable.return_type.tag }) xs r
        (rw (build_return, void) at e)
  | inr held ↦
      elim (Option-cases
        (if is_array callable.return_type.tag then callable.return_type.array_length else none)) [
          | inl missing ↦
              plain-Returns
                (record (tagged callable) {
                  skip_in = true;
                  marshallers = some Marshallers.return_value;
                })
                xs r refl (rw (build_return, held, missing) at e)
          | inr (p, found) ↦
              let (pos, _, done) =
                ok_of_bind (array_pos p) _ (rw (build_return, held, found) at e) in
              array-Returns
                (record (tagged callable) {
                  marshallers = some Marshallers.return_array;
                  contents = Contents.array pos (tag_of callable.args p);
                })
                xs p pos r refl done
        ]
]

-- Before the first argument.
start-Counted :
    (callable : CallableInfo) (n : ℕ) (r : Returned)
    → build_return callable new0 (replicate n new0) ≡ ok r
    → Counted n (gives r.0) 0 (record { arguments = r.1; js_in = 0; js_out = bump r.2 0 })
unfolding new0
start-Counted callable n r e =
    let h = build_return_lem callable (replicate n new0) r e in
    record {
      whole = h.whole ∙ length-replicate_new0 n new0;
      ins = refl;
      outs = omega (arith, h.outs);
      few_ins = omega arith;
      few_outs = omega (arith, h.outs, bit-le (not (r.0).skip_out));
      even = h.even λ j c _ found. rw (replicate-even n new0 j c found) refl;
    }

function_of : Function → Result Function → Function
function_of f (ok g) = g
function_of f _ = f

function-injective : {f g : Function} → ok f ≡ ok g → f ≡ g
unfolding function_of
function-injective {f} e = ap (function_of f) e

abbrev finished : CallableInfo → ArgumentCache → ArgumentCache → Progress → Function
finished callable instance_arg return_value done = record {
  info = callable;
  instance_arg = instance_arg;
  return_value = return_value;
  arguments = done.arguments;
  js_in_argc = done.js_in;
  js_out_argc = done.js_out;
}

abbrev IsTotal : ℕ → Function → Type 0
IsTotal n function =
    (length function.arguments ≡ n)
    × (function.js_in_argc ≡ sum_to takes n function.arguments)
    × (function.js_out_argc ≡ gives function.return_value + sum_to gives n function.arguments)

finished-IsTotal :
    (n : ℕ) (callable : CallableInfo) (instance_arg return_value : ArgumentCache) (done : Progress)
    → Counted n (gives return_value) n done
    → IsTotal n (finished callable instance_arg return_value done)
finished-IsTotal n callable instance_arg return_value done h = (h.whole, h.ins, h.outs)

-- For a function whose arguments have their companions behind them, once its caches are set up:
-- js_in_argc is the number of caches that are filled from a JavaScript argument, and js_out_argc is
-- the number of caches, the return value's among them, that are returned to JavaScript.
pub init_cached_function_data_lem :
    (types : TypeSystem) (callable : CallableInfo) (function : Function)
    → init_cached_function_data types callable ≡ ok function
    → length callable.args ≤ 253
    → AllForward 0 callable.args
    → (length function.arguments ≡ length callable.args)
      × (function.js_in_argc ≡ sum_to takes (length callable.args) function.arguments)
      × (function.js_out_argc
          ≡ gives function.return_value + sum_to gives (length callable.args) function.arguments)
unfolding init_cached_function_data
init_cached_function_data_lem types callable function e few forward =
    let n = length callable.args in
    let m = n % 256 in
    let small : m ≡ n = omega (arith, few) in
    let (instance_arg, _, after_instance) =
      ok_of_bind (init_instance types callable callable.is_method) _ e in
    let (returned, built, after_return) =
      ok_of_bind (build_return callable new0 (replicate m new0)) _ after_instance in
    let start : Progress = record {
      arguments = returned.1;
      js_in = 0;
      js_out = bump returned.2 0;
    } in
    let (done, all, made) =
      ok_of_bind (init_args types callable (take m callable.args) 0 start) _ after_return in
    let every : init_args types callable callable.args 0 start ≡ ok done =
      subst (λ args. init_args types callable args 0 start ≡ ok done)
        (length-take_all m callable.args (sym small)) all in
    let counted : Counted m (gives returned.0) (0 + n) done =
      args-Counted types callable m (gives returned.0) callable.args 0 start done
        (start-Counted callable m returned built) (omega (arith, few)) forward every in
    subst (IsTotal n) (function-injective made) (
      finished-IsTotal n callable instance_arg returned.0 done (
        subst (λ k. Counted k (gives returned.0) n done) small
          (subst (λ k. Counted m (gives returned.0) k done) (omega arith) counted)))
