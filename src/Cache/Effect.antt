-- ===== src/Cache/Effect.antt =====
-- What building the cache of one argument does to the counters and to the other caches
-- (gjs_arg_cache_build_arg of gi/arg-cache.cpp).
use mathlib.Core.Path.{subst}
use cjs.Prelude.{
  ℕ, ◌<◌, ◌≡◌, refl, Bool, true, false, Option, none, some, List, if◌then◌else◌, ◌&&◌, not, arith,
  get_elem?, ==_refl,
}
use cjs.Gi.{InfoType, ArgInfo, ArgDirection, input, output, inout}
use cjs.Cache.Marshallers.{Marshallers, marshal_in}
use cjs.Cache.Defs.{ArgumentCache, Message, Result, ok, throw, abort, ◌>>=◌, set_skip_all}
use cjs.Cache.Tables.{has_in}
use cjs.Cache.Writes.{get_elem?-modify, Writes, at_index, behind, IsEven}
use cjs.Cache.Build.{
  modify, is_input, is_output, is_array, is_interface, is_callback, length_out, caller_allocates,
  length_at, skip_at, placed, is_destroy_notify, with_table,
}

abbrev pub bit : Bool → ℕ
bit true = 1
bit false = 0

-- Whether the argument is filled from a JavaScript argument when the function is called, and
-- whether it is returned to JavaScript.
abbrev pub takes : ArgumentCache → ℕ
takes c = bit (has_in c.marshallers && not c.skip_in)

abbrev pub gives : ArgumentCache → ℕ
gives c = bit (not c.skip_out)

-- The flags of a cache that is set up for a direction.
pub record IsSetUp (dir : ArgDirection) (c : ArgumentCache) : Type 0 where
  pub in_flag : c.skip_in ≡ is_output dir
  pub out_flag : c.skip_out ≡ is_input dir

pub record Effect (dir : ArgDirection) (i : ℕ) (xs : List ArgumentCache)
    (r : Result (List ArgumentCache × Bool)) : Type 0 where
  pub effect :
      (ys : List ArgumentCache) (inc : Bool)
      → r ≡ ok (ys, inc)
      → Writes i xs ys
        × ((c : ArgumentCache) × (get_elem? ys i ≡ some c)
            × (takes c ≡ bit (inc && not (is_output dir)))
            × (gives c ≡ bit (inc && not (is_input dir))))

abbrev built : List ArgumentCache → Bool → Result (List ArgumentCache × Bool)
built ys inc = ok (ys, inc)

Pair-injective :
    (ys zs : List ArgumentCache) (a b : Bool) → built ys a ≡ built zs b → (ys ≡ zs) × (a ≡ b)
Pair-injective ys zs a b e = (ground arith, ground arith)

pub Effect-throw :
    (dir : ArgDirection) (i : ℕ) (xs : List ArgumentCache) (m : Message) → Effect dir i xs (throw m)
Effect-throw dir i xs m = record { effect = λ ys inc e. absurd (ground arith) }

pub Effect-abort : (dir : ArgDirection) (i : ℕ) (xs : List ArgumentCache) → Effect dir i xs abort
Effect-abort dir i xs = record { effect = λ ys inc e. absurd (ground arith) }

pub Effect-if :
    {dir : ArgDirection} {i : ℕ} {xs : List ArgumentCache} (b : Bool)
    {r s : Result (List ArgumentCache × Bool)}
    → (b ≡ true → Effect dir i xs r)
    → (b ≡ false → Effect dir i xs s)
    → Effect dir i xs (if b then r else s)
Effect-if true h k = h refl
Effect-if false h k = k refl

pub Effect->>= :
    {dir : ArgDirection} {i : ℕ} {xs : List ArgumentCache} {A : Type 0} (m : Result A)
    {f : A → Result (List ArgumentCache × Bool)}
    → ((a : A) → m ≡ ok a → Effect dir i xs (f a))
    → Effect dir i xs (m >>= f)
Effect->>= (ok a) h = h a refl
Effect->>= (throw m) h = Effect-throw _ _ _ m
Effect->>= abort h = Effect-abort _ _ _

pub Effect-ok :
    {dir : ArgDirection} {i : ℕ} {xs ys : List ArgumentCache} {inc : Bool} (c : ArgumentCache)
    → Writes i xs ys
    → get_elem? ys i ≡ some c
    → takes c ≡ bit (inc && not (is_output dir))
    → gives c ≡ bit (inc && not (is_input dir))
    → Effect dir i xs (ok (ys, inc))
Effect-ok {dir} {i} {xs} {ys} {inc} c w found t g = record {
  effect = λ zs b e.
      let (same, same_inc) = Pair-injective ys zs inc b e in
      (subst (Writes i xs) same w, (c, rw (← same) found, rw (← same_inc) t, rw (← same_inc) g));
}

pub get_elem?-modify_self {ℓ} :
    {A : Type ℓ} (xs : List A) (i : ℕ) (f : A → A) {x : A}
    → get_elem? xs i ≡ some x
    → get_elem? (modify xs i f) i ≡ some (f x)
get_elem?-modify_self xs i f e = rw (get_elem?-modify, ==_refl i, e) refl

-- One argument whose own cache is set up, in caches that have been written to only for it.
module _ (dir : ArgDirection) (i : ℕ) (xs arguments : List ArgumentCache) (self : ArgumentCache)
    (w : Writes i xs arguments) (found : get_elem? arguments i ≡ some self)
    (set_up : IsSetUp dir self) where
  pub placed-Effect :
      (r : Result ArgumentCache)
      → ((c : ArgumentCache)
          → r ≡ ok c
          → (has_in c.marshallers ≡ true)
            × (c.skip_in ≡ self.skip_in)
            × (c.skip_out ≡ self.skip_out))
      → Effect dir i xs (placed i arguments r)
  placed-Effect (ok c) h =
      let (table, same_in, same_out) = h c refl in
      Effect-ok c (at_index (λ _. c) w) (get_elem?-modify_self arguments i (λ _. c) found)
        (ground (arith, set_up)) (ground (arith, set_up))
  placed-Effect (throw m) h = Effect-throw dir i xs m
  placed-Effect abort h = Effect-abort dir i xs

  pub caller_allocates-Effect :
      (arg : ArgInfo) (kind : InfoType)
      → Effect dir i xs (placed i arguments (caller_allocates arg kind self))
  unfolding caller_allocates marshal_in
  caller_allocates-Effect arg InfoType.structure =
      placed-Effect (caller_allocates arg InfoType.structure self) (λ c e. ground arith)
  caller_allocates-Effect arg InfoType.union =
      placed-Effect (caller_allocates arg InfoType.union self) (λ c e. ground arith)
  caller_allocates-Effect arg _ = Effect-throw dir i xs _

  pub invalid-Effect :
      dir ≡ input
      → Effect dir i xs (ok (modify arguments i (with_table Marshallers.invalid_in), false))
  unfolding marshal_in
  invalid-Effect e =
      Effect-ok (with_table Marshallers.invalid_in self)
        (at_index (with_table Marshallers.invalid_in) w)
        (get_elem?-modify_self arguments i (with_table Marshallers.invalid_in) found) refl
        (ground (arith, set_up))

  -- Other arguments are skipped or marked, all behind this one, and then the contents are set.
  pub finished-Effect :
      (ys : List ArgumentCache) (c : ArgumentCache) (f : ArgumentCache → ArgumentCache)
      → Writes i xs ys
      → get_elem? ys i ≡ some c
      → has_in (f c).marshallers ≡ true
      → (f c).skip_in ≡ self.skip_in
      → (f c).skip_out ≡ self.skip_out
      → Effect dir i xs (ok (modify ys i f, true))
  finished-Effect ys c f w' found' table same_in same_out =
      Effect-ok (f c) (at_index f w') (get_elem?-modify_self ys i f found') (ground (arith, set_up))
        (ground (arith, set_up))

-- A position behind an argument, if there is one.
abbrev pub Behind : ℕ → Option ℕ → Type 0
Behind i none = Unit
Behind i (some p) = i < p

pub set_skip_all-IsEven : (c : ArgumentCache) → IsEven c → IsEven (set_skip_all c)
unfolding set_skip_all
set_skip_all-IsEven c e = refl

pub length_out-IsEven : (p : ℕ) (c : ArgumentCache) → IsEven c → IsEven (length_out p c)
unfolding length_out
length_out-IsEven p c e = e

pub skip_at-Writes :
    {i : ℕ} {xs ys : List ArgumentCache} (o : Option ℕ)
    → Behind i o
    → Writes i xs ys
    → Writes i xs (skip_at o ys)
skip_at-Writes none h w = w
skip_at-Writes (some p) h w = behind p set_skip_all h set_skip_all-IsEven w

pub get_elem?-behind :
    (ys : List ArgumentCache) (i p : ℕ) (f : ArgumentCache → ArgumentCache)
    → i < p
    → get_elem? (modify ys p f) i ≡ get_elem? ys i
get_elem?-behind ys i p f h = ground (arith, get_elem?-modify ys p f i)

pub skip_at-found :
    (ys : List ArgumentCache) (i : ℕ) (o : Option ℕ)
    → Behind i o
    → get_elem? (skip_at o ys) i ≡ get_elem? ys i
skip_at-found ys i none h = refl
skip_at-found ys i (some p) h = get_elem?-behind ys i p set_skip_all h

pub length_at-Writes :
    {i : ℕ} {xs ys : List ArgumentCache} (dir : ArgDirection) (p : ℕ)
    → i < p
    → Writes i xs ys
    → Writes i xs (length_at dir p ys)
length_at-Writes input p h w = w
length_at-Writes inout p h w = w
length_at-Writes output p h w = behind p (length_out p) h (length_out-IsEven p) w

pub length_at-found :
    (ys : List ArgumentCache) (i : ℕ) (dir : ArgDirection) (p : ℕ)
    → i < p
    → get_elem? (length_at dir p ys) i ≡ get_elem? ys i
length_at-found ys i input p h = refl
length_at-found ys i inout p h = refl
length_at-found ys i output p h = get_elem?-behind ys i p (length_out p) h

-- The arguments that go with this one, its user data, its destroy notification or its length, stand
-- behind it.
pub record IsForward (i : ℕ) (arg : ArgInfo) : Type 0 where
  pub closure_behind :
      (is_interface arg.type_info.tag && is_callback arg.type_info.interface_info.info_type) ≡ true
      → is_destroy_notify arg.type_info.interface_info ≡ false
      → Behind i arg.closure
  pub destroy_behind :
      (is_interface arg.type_info.tag && is_callback arg.type_info.interface_info.info_type) ≡ true
      → is_destroy_notify arg.type_info.interface_info ≡ false
      → Behind i arg.destroy
  pub length_behind :
      (is_array arg.type_info.tag && arg.type_info.is_c_array) ≡ true
      → Behind i arg.type_info.array_length
