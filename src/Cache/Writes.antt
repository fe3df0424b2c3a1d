-- ===== src/Cache/Writes.antt =====
-- The caches are written in place: what a write at an index leaves alone.
use cjs.Prelude.{
  ℕ, zero, suc, ◌+◌, ◌<◌, ◌≤◌, ◌≡◌, refl, ap, ◌∙◌, Option, none, some, List, [], ◌∷◌, if◌then◌else◌,
  ◌==◌, arith, get_elem?, length, Bool-cases, Option-cases, inl, inr,
}
use cjs.Cache.Defs.{ArgumentCache}
use cjs.Cache.Build.{modify}

abbrev pub map_some {ℓ} : {A : Type ℓ} → (A → A) → Option A → Option A
map_some f none = none
map_some f (some x) = some (f x)

module _ {ℓ} {A : Type ℓ} where
  pub get_elem?-modify :
      (xs : List A) (i : ℕ) (f : A → A) (j : ℕ)
      → get_elem? (modify xs i f) j
        ≡ (if i == j then map_some f (get_elem? xs j) else get_elem? xs j)
  get_elem?-modify [] i f j = ground arith
  get_elem?-modify (x ∷ xs) zero f zero = refl
  get_elem?-modify (x ∷ xs) zero f (suc j) = ground arith
  get_elem?-modify (x ∷ xs) (suc i) f zero = ground arith
  get_elem?-modify (x ∷ xs) (suc i) f (suc j) = get_elem?-modify xs i f j ∙ ground arith

  pub length-modify : (xs : List A) (i : ℕ) (f : A → A) → length (modify xs i f) ≡ length xs
  length-modify [] i f = refl
  length-modify (x ∷ xs) zero f = refl
  length-modify (x ∷ xs) (suc i) f = ap suc (length-modify xs i f)

  -- The weights of the first elements.
  abbrev pub sum_to : (A → ℕ) → ℕ → List A → ℕ
  sum_to w zero xs = 0
  sum_to w (suc n) [] = 0
  sum_to w (suc n) (x ∷ xs) = w x + sum_to w n xs

  pub sum_to-modify :
      (w : A → ℕ) (n : ℕ) (xs : List A) (i : ℕ) (f : A → A)
      → n ≤ i
      → sum_to w n (modify xs i f) ≡ sum_to w n xs
  sum_to-modify w zero xs i f h = refl
  sum_to-modify w (suc n) [] i f h = refl
  sum_to-modify w (suc n) (x ∷ xs) zero f h = absurd (omega arith)
  sum_to-modify w (suc n) (x ∷ xs) (suc i) f h =
      ap (λ (k : ℕ). w x + k) (sum_to-modify w n xs i f (omega arith))

  pub sum_to-suc :
      (w : A → ℕ) (n : ℕ) (xs : List A) {x : A}
      → get_elem? xs n ≡ some x
      → sum_to w (suc n) xs ≡ sum_to w n xs + w x
  sum_to-suc w n [] e = absurd (ground arith)
  sum_to-suc w zero (y ∷ ys) e = ground arith
  sum_to-suc w (suc n) (y ∷ ys) e = omega (arith, sum_to-suc w n ys e)

-- A cache that no argument has used yet is skipped on the way in exactly if on the way out.
abbrev pub IsEven : ArgumentCache → Type 0
IsEven c = c.skip_in ≡ c.skip_out

-- Writes at the index of an argument, and even ones behind it.
pub data Writes (i : ℕ) (xs : List ArgumentCache) : List ArgumentCache → Type 0 where
  start : Writes i xs xs
  at_index :
      {ys : List ArgumentCache} (f : ArgumentCache → ArgumentCache)
      → Writes i xs ys
      → Writes i xs (modify ys i f)
  behind :
      {ys : List ArgumentCache} (p : ℕ) (f : ArgumentCache → ArgumentCache)
      → i < p
      → ((c : ArgumentCache) → IsEven c → IsEven (f c))
      → Writes i xs ys
      → Writes i xs (modify ys p f)

pub Writes-length : {i : ℕ} {xs ys : List ArgumentCache} → Writes i xs ys → length ys ≡ length xs
Writes-length start = refl
Writes-length {i} (at_index {ys} f w) = length-modify ys i f ∙ Writes-length w
Writes-length (behind {ys} p f h even w) = length-modify ys p f ∙ Writes-length w

pub Writes-sum_to :
    {i : ℕ} {xs ys : List ArgumentCache} (weight : ArgumentCache → ℕ)
    → Writes i xs ys
    → sum_to weight i ys ≡ sum_to weight i xs
Writes-sum_to weight start = refl
Writes-sum_to {i} weight (at_index {ys} f w) =
    sum_to-modify weight i ys i f (omega arith) ∙ Writes-sum_to weight w
Writes-sum_to {i} weight (behind {ys} p f h even w) =
    sum_to-modify weight i ys p f (omega arith) ∙ Writes-sum_to weight w

-- All caches from an index on are even.
abbrev pub EvenFrom : ℕ → List ArgumentCache → Type 0
EvenFrom i xs = (j : ℕ) (c : ArgumentCache) → i ≤ j → get_elem? xs j ≡ some c → IsEven c

pub behind-EvenFrom :
    (i : ℕ) (xs : List ArgumentCache) (p : ℕ) (f : ArgumentCache → ArgumentCache)
    → ((c : ArgumentCache) → IsEven c → IsEven (f c))
    → EvenFrom i xs
    → EvenFrom i (modify xs p f)
behind-EvenFrom i xs p f keeps even j c h e = elim (Bool-cases (p == j)) [
  | inr other ↦ even j c h (ground (arith, get_elem?-modify xs p f j))
  | inl here ↦ elim (Option-cases (get_elem? xs j)) [
    | inl missing ↦ absurd (ground (arith, get_elem?-modify xs p f j))
    | inr (c0, found) ↦ ground (arith, get_elem?-modify xs p f j, keeps c0 (even j c0 h found))
  ]
]

at_index-EvenFrom :
    (i : ℕ) (xs : List ArgumentCache) (f : ArgumentCache → ArgumentCache)
    → EvenFrom (suc i) xs
    → EvenFrom (suc i) (modify xs i f)
at_index-EvenFrom i xs f even j c h e = even j c h (ground (arith, get_elem?-modify xs i f j))

pub Writes-EvenFrom :
    {i : ℕ} {xs ys : List ArgumentCache}
    → Writes i xs ys
    → EvenFrom (suc i) xs
    → EvenFrom (suc i) ys
Writes-EvenFrom start even = even
Writes-EvenFrom {i} (at_index {ys} f w) even = at_index-EvenFrom i ys f (Writes-EvenFrom w even)
Writes-EvenFrom {i} (behind {ys} p f h keeps w) even =
    behind-EvenFrom (suc i) ys p f keeps (Writes-EvenFrom w even)
