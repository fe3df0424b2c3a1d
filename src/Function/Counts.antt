-- ===== src/Function/Counts.antt =====
-- The counters that init_cached_function_data (gi/function.cpp) keeps, against the caches that it
-- leaves.
use cjs.Prelude.{
  ℕ, suc, ◌+◌, ◌<◌, ◌≤◌, ◌≡◌, refl, ap, ◌∙◌, Bool, true, false, some, List, [], ◌∷◌, ◌&&◌, ◌||◌,
  not, arith, get_elem?, length, Bool-cases, Option-cases, inl, inr,
}
use mathlib.Core.Path.{subst}
use native.Mathlib.Nat.{add-zero}
use cjs.Gi.{TypeSystem, ArgInfo, CallableInfo, ArgDirection, input, output, inout}
use cjs.Cache.Defs.{ArgumentCache, Result, ok, throw, abort, ◌>>=◌}
use cjs.Cache.Writes.{
  Writes-length, Writes-sum_to, Writes-EvenFrom, EvenFrom, IsEven, sum_to, sum_to-suc,
}
use cjs.Cache.Effect.{takes, gives, bit, IsForward}
use cjs.Cache.Kinds.{build_arg-Effect}
use cjs.Cache.Build.{build_arg, is_input, is_output}
use cjs.Function.Init.{Progress, bump, counted, init_arg, init_args}

-- The companions of each argument, its length, user data or destroy notification, stand behind it.
abbrev pub AllForward : ℕ → List ArgInfo → Type 0
AllForward i [] = Unit
AllForward i (arg ∷ args) = IsForward i arg × AllForward (suc i) args

-- Before the argument at an index: what is counted is what the caches before it take and give,
-- `base` being what the return value gives, and the caches from it on are even.
pub record Counted (n base i : ℕ) (p : Progress) : Type 0 where
  pub whole : length p.arguments ≡ n
  pub ins : p.js_in ≡ sum_to takes i p.arguments
  pub outs : p.js_out ≡ base + sum_to gives i p.arguments
  pub few_ins : p.js_in ≤ i
  pub few_outs : p.js_out ≤ suc i
  pub even : EvenFrom i p.arguments

EvenFrom-later : (i : ℕ) (xs : List ArgumentCache) → EvenFrom i xs → EvenFrom (suc i) xs
EvenFrom-later i xs h j c le e = h j c (omega arith) e

even_skipped :
    (c : ArgumentCache)
    → IsEven c
    → (c.skip_in || c.skip_out) ≡ true
    → (takes c ≡ 0) × (gives c ≡ 0)
even_skipped c e h = ground arith

bump_lem : (b : Bool) (n : ℕ) → n < 255 → bump b n ≡ n + bit b
bump_lem true n h = omega arith
bump_lem false n h = omega arith

counted_lem :
    (types : TypeSystem) (dir : ArgDirection) (p : Progress) (ys : List ArgumentCache) (inc : Bool)
    → p.js_in < 255
    → p.js_out < 255
    → ((counted types dir p (ys, inc)).arguments ≡ ys)
      × ((counted types dir p (ys, inc)).js_in ≡ p.js_in + bit (inc && not (is_output dir)))
      × ((counted types dir p (ys, inc)).js_out ≡ p.js_out + bit (inc && not (is_input dir)))
counted_lem types input p ys true h k = (refl, omega arith, omega arith)
counted_lem types output p ys true h k = (refl, omega arith, omega arith)
counted_lem types inout p ys true h k = (refl, omega arith, omega arith)
counted_lem types dir p ys false h k = (refl, omega arith, omega arith)

pub bit-le : (b : Bool) → bit b ≤ 1
bit-le true = omega arith
bit-le false = omega arith

progress_of : Progress → Result Progress → Progress
progress_of p (ok q) = q
progress_of p _ = p

progress-injective : {p q : Progress} → ok p ≡ ok q → p ≡ q
unfolding progress_of
progress-injective {p} e = ap (progress_of p) e

-- A chain that succeeds has a first step that succeeds.
pub ok_of_bind {μ ν} :
    {S : Type μ} {T : Type ν} (first : Result S) (next : S → Result T) {end : T}
    → (first >>= next) ≡ ok end
    → (value : S) × (first ≡ ok value) × (next value ≡ ok end)
ok_of_bind abort next e = cc
ok_of_bind (throw message) next e = cc
ok_of_bind (ok value) next e = (value, refl, e)

module _ (types : TypeSystem) (callable : CallableInfo) (n base : ℕ) where
  skipped-Counted :
      (i : ℕ) (p : Progress) (c : ArgumentCache)
      → Counted n base i p
      → get_elem? p.arguments i ≡ some c
      → (c.skip_in || c.skip_out) ≡ true
      → Counted n base (suc i) p
  skipped-Counted i p c h found skipped =
      let (no_in, no_out) = even_skipped c (h.even i c (omega arith) found) skipped in
      record {
        whole = h.whole;
        ins = omega (arith, h.ins, sum_to-suc takes i p.arguments found, no_in);
        outs = omega (arith, h.outs, sum_to-suc gives i p.arguments found, no_out);
        few_ins = omega (arith, h.few_ins);
        few_outs = omega (arith, h.few_outs);
        even = EvenFrom-later i p.arguments h.even;
      }

  built-Counted :
      (arg : ArgInfo) (i : ℕ) (p : Progress) (c : ArgumentCache) (ys : List ArgumentCache)
      (inc : Bool)
      → Counted n base i p
      → i < 253
      → get_elem? p.arguments i ≡ some c
      → (c.skip_in || c.skip_out) ≡ false
      → IsForward i arg
      → build_arg types callable arg i p.arguments ≡ ok (ys, inc)
      → Counted n base (suc i) (counted types arg.direction p (ys, inc))
  built-Counted arg i p c ys inc h few found plain forward e =
      let (same, in_now, out_now) =
        counted_lem types arg.direction p ys inc (omega (arith, h.few_ins))
          (omega (arith, h.few_outs)) in
      let (w, (c', found', takes_c, gives_c)) =
        (build_arg-Effect types callable arg i p.arguments c found plain forward).effect ys inc e in
      record {
        whole = rw same (Writes-length w ∙ h.whole);
        ins = rw same (
            omega
              (arith, in_now, h.ins, Writes-sum_to takes w, sum_to-suc takes i ys found', takes_c));
        outs = rw same (
            omega (
              arith,
              out_now,
              h.outs,
              Writes-sum_to gives w,
              sum_to-suc gives i ys found',
              gives_c,
            ));
        few_ins = omega (arith, in_now, h.few_ins, bit-le (inc && not (is_output arg.direction)));
        few_outs = omega (arith, out_now, h.few_outs, bit-le (inc && not (is_input arg.direction)));
        even = rw same (Writes-EvenFrom w (EvenFrom-later i p.arguments h.even));
      }

  arg-Counted :
      (arg : ArgInfo) (i : ℕ) (p p' : Progress)
      → Counted n base i p
      → i < 253
      → IsForward i arg
      → init_arg types callable arg i p ≡ ok p'
      → Counted n base (suc i) p'
  unfolding init_arg
  arg-Counted arg i p p' h few forward e = elim (Option-cases (get_elem? p.arguments i)) [
    | inl missing ↦ absurd (ground arith)
    | inr (c, found) ↦ elim (Bool-cases (c.skip_in || c.skip_out)) [
      | inl skipped ↦
          subst (Counted n base (suc i)) (ground arith) (skipped-Counted i p c h found skipped)
      | inr plain ↦
          let ((ys, inc), built, done) =
            ok_of_bind (build_arg types callable arg i p.arguments)
              (λ r. ok (counted types arg.direction p r)) (ground arith) in
          subst (Counted n base (suc i)) (progress-injective done)
            (built-Counted arg i p c ys inc h few found plain forward built)
    ]
  ]

  pub args-Counted :
      (args : List ArgInfo) (i : ℕ) (p p' : Progress)
      → Counted n base i p
      → i + length args ≤ 253
      → AllForward i args
      → init_args types callable args i p ≡ ok p'
      → Counted n base (i + length args) p'
  unfolding init_args
  args-Counted [] i p p' h few forward e =
      rw (add-zero i) (subst (Counted n base i) (progress-injective e) h)
  args-Counted (arg ∷ args) i p p' h few forward e =
      let (q, first, rest) =
        ok_of_bind (init_arg types callable arg i p) (λ q. init_args types callable args (suc i) q)
          e in
      subst (λ k. Counted n base k p') (omega arith)
        (args-Counted args (suc i) q p' (arg-Counted arg i p q h (omega arith) forward.0 first)
          (omega arith) forward.1 rest)
