-- ===== src/Function/Loops.antt =====
-- The loops of gjs_invoke_c_function (gi/function.cpp): that they end without a failed assertion,
-- and where.
use cjs.Prelude.{
  ℕ, suc, ◌+◌, ◌≤◌, ◌≡◌, refl, ap, ◌∙◌, Bool, true, false, Option, none, some, List, [], ◌∷◌,
  if◌then◌else◌, ◌&&◌, not, ltb, arith, get_elem?, length, ◌++◌,
}
use cjs.Cache.Defs.{ArgumentCache}
use cjs.Cache.Effect.{gives, bit}
use cjs.Cache.Writes.{sum_to}
use cjs.Cache.Tables.{has_in}
use cjs.Function.Init.{ArgPos, indexed}
use cjs.Function.Engine.{Engine}
use cjs.Function.Invoke.{
  InEnd, OutEnd, or_else, has_table, has_out, in_loop, out_loop, release_loop, is_return_at,
}

-- A result that has a property.
abbrev pub Ends {ℓ κ} : {A : Type ℓ} → Option A → (A → Type κ) → Type (ℓ ⊔ κ)
Ends {A = A} o P = (a : A) × (o ≡ some a) × P a

pub Ends-if {ℓ κ} :
    {A : Type ℓ} {P : A → Type κ} (b : Bool) {x y : Option A}
    → (b ≡ true → Ends x P)
    → (b ≡ false → Ends y P)
    → Ends (if b then x else y) P
Ends-if true h k = h refl
Ends-if false h k = k refl

pub Ends-some {ℓ κ} : {A : Type ℓ} {P : A → Type κ} (a : A) → P a → Ends (some a) P
Ends-some a h = (a, refl, h)

pub Ends-match {ℓ κ μ} :
    {A : Type ℓ} {B : Type μ} {P : A → Type κ} (o : Option B) {x : Option A} {f : B → Option A}
    → Ends x P
    → ((b : B) → Ends (f b) P)
    → Ends (elim o [ none ↦ x | some b ↦ f b ]) P
Ends-match none h k = h
Ends-match (some b) h k = k b

-- Every cache of a list has a property.
abbrev pub All : (ArgumentCache → Bool) → List (ArgPos × ArgumentCache) → Type 0
All test [] = Unit
All test ((_, cache) ∷ rest) = (test cache ≡ true) × All test rest

abbrev pub gives_all : List (ArgPos × ArgumentCache) → ℕ
gives_all [] = 0
gives_all ((_, cache) ∷ rest) = gives cache + gives_all rest

pub gives_all-indexed :
    (i : ℕ) (xs : List ArgumentCache) → gives_all (indexed i xs) ≡ sum_to gives (length xs) xs
gives_all-indexed i [] = refl
gives_all-indexed i (x ∷ xs) = ap (λ (k : ℕ). gives x + k) (gives_all-indexed (suc i) xs)

pub length-indexed : (i : ℕ) (xs : List ArgumentCache) → length (indexed i xs) ≡ length xs
length-indexed i [] = refl
length-indexed i (x ∷ xs) = ap suc (length-indexed (suc i) xs)

module _ {State Value : Type 0} (engine : Engine State Value) where
  -- All arguments are processed unless one fails.
  pub record InLaw (processed n : ℕ) (end : InEnd State) : Type 0 where
    pub lower : processed ≤ end.processed_c_args
    pub upper : end.processed_c_args ≤ processed + n
    pub all : end.failed ≡ false → end.processed_c_args ≡ processed + n

  pub in_loop_lem :
      (args : List Value) (caches : List (ArgPos × ArgumentCache)) (js processed : ℕ) (s : State)
      → All has_table caches
      → Ends (in_loop engine args caches js processed s) (InLaw processed (length caches))
  unfolding in_loop
  in_loop_lem args [] js processed s h =
      Ends-some _ (record { lower = omega arith; upper = omega arith; all = λ _. omega arith })
  in_loop_lem args ((pos, cache) ∷ rest) js processed s h =
      Ends-if (not (has_table cache)) (λ bare. absurd (ground (arith, h.0)))
        λ _.
          Ends-if (not (has_in cache.marshallers)) (λ _. stopped s)
            λ _.
              Ends-if (not tried.0) (λ _. stopped tried.1)
                λ _.
                  let (end, e, law) =
                    in_loop_lem args rest (if cache.skip_in then js else suc js) (suc processed)
                      tried.1 h.1 in
                  (
                    end,
                    e,
                    record {
                      lower = omega (arith, law.lower);
                      upper = omega (arith, law.upper);
                      all = λ fine. omega (arith, law.all fine);
                    },
                  )
    where
      tried : Bool × State
      tried = engine.marshal_in pos cache (or_else engine.undefined (get_elem? args js)) s

      stopped :
          (s : State)
          → Ends
              (some (record { failed = true; processed_c_args = processed; state = s }))
              (InLaw processed (suc (length rest)))
      stopped s =
          Ends-some _
            (record { lower = omega arith; upper = omega arith; all = λ e. absurd (ground arith) })

  -- Unless something fails, every cache that is not skipped is counted, and has a value unless the
  -- return value is kept.
  pub record OutLaw (keep : Bool) (n : ℕ) (end : OutEnd State Value) : Type 0 where
    pub counted : end.failed ≡ false → end.js_arg_pos ≡ n
    pub values : keep ≡ false → length end.return_values ≡ end.js_arg_pos

  length-snoc : (xs : List Value) (x : Value) → length (xs ++ (x ∷ [])) ≡ suc (length xs)
  length-snoc [] x = refl
  length-snoc (y ∷ ys) x = ap suc (length-snoc ys x)

  pub out_loop_lem :
      (keep : Bool) (caches : List (ArgPos × ArgumentCache)) (js : ℕ) (values : List Value)
      (s : State)
      → All has_out caches
      → (keep ≡ false → length values ≡ js)
      → Ends (out_loop engine keep caches js values s) (OutLaw keep (js + gives_all caches))
  unfolding out_loop
  out_loop_lem keep [] js values s h same =
      Ends-some _ (record { counted = λ _. omega arith; values = same })
  out_loop_lem true ((pos, cache) ∷ rest) js values s h same =
      let (end, e, law) =
        out_loop_lem true rest (if cache.skip_out then js else suc js) values s h.1
          (λ e. absurd (ground arith)) in
      (
        end,
        e,
        record { counted = λ fine. law.counted fine ∙ counts cache.skip_out; values = law.values },
      )
    where
      counts :
          (b : Bool)
          → (if b then js else suc js) + gives_all rest ≡ js + (bit (not b) + gives_all rest)
      counts true = omega arith
      counts false = omega arith
  out_loop_lem false ((pos, cache) ∷ rest) js values s h same =
      Ends-if (not (has_out cache)) (λ bare. absurd (ground (arith, h.0)))
        λ _. Ends-match made.0 (stopped made.1) λ value.
          Ends-if cache.skip_out
            (λ skipped.
              let (end, e, law) = out_loop_lem false rest js values made.1 h.1 same in
              (
                end,
                e,
                record {
                  counted = λ fine. omega (arith, law.counted fine, ap (λ b. bit (not b)) skipped);
                  values = law.values;
                },
              ))
            λ given.
              Ends-if (engine.append value made.1).0
                (λ _.
                  let (end, e, law) =
                    out_loop_lem false rest (suc js) (values ++ (value ∷ []))
                      (engine.append value made.1).1 h.1
                      (λ _. length-snoc values value ∙ ap suc (same refl)) in
                  (
                    end,
                    e,
                    record {
                      counted =
                          λ fine. omega (arith, law.counted fine, ap (λ b. bit (not b)) given);
                      values = law.values;
                    },
                  ))
                (λ _. stopped (engine.append value made.1).1)
    where
      made : Option Value × State
      made = engine.marshal_out pos cache s

      stopped :
          (s : State)
          → Ends
              (some (record { failed = true; js_arg_pos = js; return_values = values; state = s }))
              (OutLaw false (js + gives_all ((pos, cache) ∷ rest)))
      stopped s = Ends-some _ (record { counted = λ e. absurd (ground arith); values = same })

  pub release_loop_lem :
      (keep failed completed : Bool) (top : ℕ) (caches : List (ArgPos × ArgumentCache)) (n : ℕ)
      (bad : Bool) (s : State)
      → All has_table caches
      → n ≤ top
      → top ≤ n + length caches
      → Ends
          (release_loop engine keep failed completed top caches n bad s)
          (λ end. end.ffi_arg_pos ≡ top)
  unfolding release_loop
  release_loop_lem keep failed completed top [] n bad s h low high = Ends-some _ (omega arith)
  release_loop_lem keep failed completed top ((pos, cache) ∷ rest) n bad s h low high =
      Ends-if (not (ltb n top)) (λ e. Ends-some _ (ground arith))
        λ more.
          let next : (bad : Bool) (s : State)
              → Ends (release_loop engine keep failed completed top rest (suc n) bad s)
                  (λ end. end.ffi_arg_pos ≡ top) =
            λ bad s.
              release_loop_lem keep failed completed top rest (suc n) bad s h.1 (ground arith)
                (omega arith) in
          Ends-if (failed && cache.skip_in) (λ _. next bad s)
            λ _.
              Ends-if (keep && is_return_at pos) (λ _. next bad (engine.save_return s))
                λ _.
                  Ends-if (not (has_table cache)) (λ bare. absurd (ground (arith, h.0)))
                    λ _. next _ _
