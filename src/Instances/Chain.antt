-- ===== src/Instances/Chain.antt =====
-- Neighbours in a list of instances, and how they change when one is taken out (gi/object.cpp).
use cjs.Prelude.{
  ℕ, ◌≡◌, refl, Bool, true, false, Option, none, some, List, [], ◌∷◌, ◌++◌, if◌then◌else◌, ◌==◌,
  ◌||◌, arith, inl, inr, Bool-cases,
}
use cjs.Instances.{is_at}

abbrev pub head : List ℕ → Option ℕ
head [] = none
head (x ∷ xs) = some x

abbrev pub mem : ℕ → List ℕ → Bool
mem g [] = false
mem g (x ∷ xs) = (x == g) || mem g xs

abbrev pub IsDistinct : List ℕ → Type 0
IsDistinct [] = Unit
IsDistinct (x ∷ xs) = (mem x xs ≡ false) × IsDistinct xs

abbrev pub remove : ℕ → List ℕ → List ℕ
remove g [] = []
remove g (x ∷ xs) = if x == g then xs else x ∷ remove g xs

-- The instance before `g`, when `q` stands before the list, and the one after it.
abbrev pub before : Option ℕ → List ℕ → ℕ → Option ℕ
before q [] g = none
before q (x ∷ xs) g = if x == g then q else before (some x) xs g

abbrev pub after : List ℕ → ℕ → Option ℕ
after [] g = none
after (x ∷ xs) g = if x == g then head xs else after xs g

pub before-absent : (q : Option ℕ) (xs : List ℕ) (g : ℕ) → mem g xs ≡ false → before q xs g ≡ none
before-absent q [] g h = refl
before-absent q (x ∷ xs) g h = ground (arith, before-absent (some x) xs g)

pub after-absent : (xs : List ℕ) (g : ℕ) → mem g xs ≡ false → after xs g ≡ none
after-absent [] g h = refl
after-absent (x ∷ xs) g h = ground (arith, after-absent xs g)

is_at-before :
    (q : Option ℕ) (xs : List ℕ) (g y : ℕ)
    → is_at q y ≡ false
    → mem y xs ≡ false
    → is_at (before q xs g) y ≡ false
is_at-before q [] g y h k = refl
is_at-before q (x ∷ xs) g y h k = ground (arith, is_at-before (some x) xs g y)

is_at-head : (xs : List ℕ) (y : ℕ) → mem y xs ≡ false → is_at (head xs) y ≡ false
is_at-head [] y h = refl
is_at-head (x ∷ xs) y h = ground arith

is_at-after : (xs : List ℕ) (g y : ℕ) → mem y xs ≡ false → is_at (after xs g) y ≡ false
is_at-after [] g y h = refl
is_at-after (x ∷ xs) g y h = ground (arith, is_at-after xs g y, is_at-head xs y)

-- The head is the only instance after what stands before the list.
is_at-before-head :
    (xs : List ℕ) (g y : ℕ) → mem y xs ≡ false → is_at (before (some y) xs g) y ≡ is_at (head xs) g
is_at-before-head [] g y h = refl
is_at-before-head (x ∷ xs) g y h = ground (arith, is_at-before (some x) xs g y)

pub head-remove :
    (xs : List ℕ) (g : ℕ) → head (remove g xs) ≡ (if is_at (head xs) g then after xs g else head xs)
head-remove [] g = refl
head-remove (x ∷ xs) g = ground arith

pub before-remove :
    (q : Option ℕ) (xs : List ℕ) (g x : ℕ)
    → IsDistinct xs
    → before q (remove g xs) x
      ≡ (if g == x then none else if is_at (after xs g) x then before q xs g else before q xs x)
before-remove q [] g x h = ground arith
before-remove q (y ∷ []) g x h = ground arith
before-remove q (y ∷ z ∷ zs) g x (h, k) = ground (
  arith,
  before-absent q (z ∷ zs) g,
  is_at-after (z ∷ zs) g y,
  before-remove (some y) (z ∷ zs) g x k,
)

pub after-remove :
    (q : Option ℕ) (xs : List ℕ) (g x : ℕ)
    → IsDistinct xs
    → is_at q x ≡ false
    → after (remove g xs) x
      ≡ (if g == x then none else if is_at (before q xs g) x then after xs g else after xs x)
after-remove q [] g x h k = ground arith
after-remove q (y ∷ ys) g x (h, d) k = ground (
  arith,
  after-absent ys g,
  head-remove ys g,
  is_at-before-head ys g y,
  after-remove (some y) ys g x d,
)

pub is_at-before_self :
    (q : Option ℕ) (xs : List ℕ) (g : ℕ) → is_at q g ≡ false → is_at (before q xs g) g ≡ false
is_at-before_self q [] g h = refl
is_at-before_self q (x ∷ xs) g h = ground (arith, is_at-before_self (some x) xs g)

pub mem-remove :
    (xs : List ℕ) (g x : ℕ)
    → IsDistinct xs
    → mem x (remove g xs) ≡ (if g == x then false else mem x xs)
mem-remove [] g x h = ground arith
mem-remove (y ∷ ys) g x (h, k) = ground (arith, mem-remove ys g x k)

pub remove-IsDistinct : (xs : List ℕ) (g : ℕ) → IsDistinct xs → IsDistinct (remove g xs)
remove-IsDistinct [] g h = tt
remove-IsDistinct (y ∷ ys) g (h, k) = elim (Bool-cases (y == g)) [
  | inl e ↦ rw e k
  | inr e ↦ rw e (ground (arith, mem-remove ys g y k), remove-IsDistinct ys g k)
]

mem-middle : (xs : List ℕ) (x : ℕ) (ys : List ℕ) → mem x (xs ++ x ∷ ys) ≡ true
mem-middle [] x ys = ground arith
mem-middle (z ∷ zs) x ys = ground (arith, mem-middle zs x ys)

-- Around an instance that stands in the middle.
pub after-middle :
    (xs : List ℕ) (x : ℕ) (ys : List ℕ)
    → IsDistinct (xs ++ x ∷ ys)
    → after (xs ++ x ∷ ys) x ≡ head ys
after-middle [] x ys h = ground arith
after-middle (z ∷ zs) x ys (h, k) = ground (arith, h, mem-middle zs x ys, after-middle zs x ys k)

pub remove-middle :
    (xs : List ℕ) (x : ℕ) (ys : List ℕ)
    → IsDistinct (xs ++ x ∷ ys)
    → remove x (xs ++ x ∷ ys) ≡ xs ++ ys
remove-middle [] x ys h = ground arith
remove-middle (z ∷ zs) x ys (h, k) = ground (arith, h, mem-middle zs x ys, remove-middle zs x ys k)
