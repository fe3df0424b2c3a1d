-- ===== src/Prelude/Bits.antt =====
-- And and or of binary digits: the law for the lowest digit, and numbers as sets of bits.
use Prim.Native.Nat.{
  ℕ, zero, suc, ◌+◌, ◌*◌, ◌/◌, ◌%◌, ◌^◌, ◌≤◌, ◌<◌, min, max, bit_and, bit_or, digits,
  bit_and-bitwise, bit_or-bitwise,
}
use mathlib.Core.Path.{◌≡◌, refl, sym, subst}
use native.Mathlib.Omega.{arith}

-- More fuel than the first number has no effect.
module _ (rest : ℕ → ℕ) (f : ℕ → ℕ → ℕ) where
  digits-enough : (n m a b : ℕ) → a ≤ n → a ≤ m → digits rest f n a b ≡ digits rest f m a b
  digits-enough zero zero a b p q = refl
  digits-enough zero (suc m) zero b p q = refl
  digits-enough (suc n) zero zero b p q = refl
  digits-enough (suc n) (suc m) zero b p q = refl
  digits-enough zero m (suc a) b p q = absurd (omega (arith, p))
  digits-enough (suc n) zero (suc a) b p q = absurd (omega (arith, q))
  digits-enough (suc n) (suc m) (suc a) b p q =
      omega (arith, digits-enough n m (suc a / 2) (b / 2) (omega arith) (omega arith))

pub and_digit : (a b : ℕ) → bit_and a b ≡ bit_and (a / 2) (b / 2) * 2 + min (a % 2) (b % 2)
and_digit zero b = omega (arith, bit_and-bitwise 0 b, bit_and-bitwise 0 (b / 2))
and_digit (suc a) b = omega (
  arith,
  bit_and-bitwise (suc a) b,
  bit_and-bitwise (suc a / 2) (b / 2),
  digits-enough (λ b. 0) min a (suc a / 2) (suc a / 2) (b / 2) (omega arith) (omega arith),
)

pub or_digit : (a b : ℕ) → bit_or a b ≡ bit_or (a / 2) (b / 2) * 2 + max (a % 2) (b % 2)
or_digit zero b = omega (arith, bit_or-bitwise 0 b, bit_or-bitwise 0 (b / 2))
or_digit (suc a) b = omega (
  arith,
  bit_or-bitwise (suc a) b,
  bit_or-bitwise (suc a / 2) (b / 2),
  digits-enough (λ b. b) max a (suc a / 2) (suc a / 2) (b / 2) (omega arith) (omega arith),
)

-- Every bit of the first number is one of the second.
infix 50 ◌⊑◌
abbrev pub ◌⊑◌ : ℕ → ℕ → Type 0
a ⊑ m = bit_and a m ≡ a

⊑-digit : (a m : ℕ) → a ⊑ m → (a / 2 ⊑ m / 2) × (a % 2 ≤ m % 2)
⊑-digit a m h = (omega (arith, h, and_digit a m), omega (arith, h, and_digit a m))

⊑-from_digit : (a m : ℕ) → a / 2 ⊑ m / 2 → a % 2 ≤ m % 2 → a ⊑ m
⊑-from_digit a m h l = omega (arith, h, l, and_digit a m)

pub zero_⊑ : (m : ℕ) → 0 ⊑ m
zero_⊑ m = bit_and-bitwise 0 m

⊑-le_by : (n a m : ℕ) → a ≤ n → a ⊑ m → a ≤ m
⊑-le_by n zero m p h = omega arith
⊑-le_by zero (suc a) m p h = absurd (omega (arith, p))
⊑-le_by (suc n) (suc a) m p h = omega (
  arith,
  ⊑-digit (suc a) m h,
  ⊑-le_by n (suc a / 2) (m / 2) (omega (arith, p)) (⊑-digit (suc a) m h).0,
)

pub ⊑-le : (a m : ℕ) → a ⊑ m → a ≤ m
⊑-le a m h = ⊑-le_by a a m (omega arith) h

or-half : (a b : ℕ) → bit_or a b / 2 ≡ bit_or (a / 2) (b / 2)
or-half a b = omega (arith, or_digit a b)

or-low : (a b : ℕ) → bit_or a b % 2 ≡ max (a % 2) (b % 2)
or-low a b = omega (arith, or_digit a b)

⊑-or_left_by : (n v a b : ℕ) → v ≤ n → v ⊑ a → v ⊑ bit_or a b
⊑-or_left_by n zero a b p h = zero_⊑ (bit_or a b)
⊑-or_left_by zero (suc v) a b p h = absurd (omega (arith, p))
⊑-or_left_by (suc n) (suc v) a b p h =
    ⊑-from_digit (suc v) (bit_or a b)
      (subst (λ m. suc v / 2 ⊑ m) (sym (or-half a b))
        (⊑-or_left_by n (suc v / 2) (a / 2) (b / 2) (omega (arith, p)) (⊑-digit (suc v) a h).0))
      (omega (arith, or-low a b, ⊑-digit (suc v) a h))

pub ⊑-or_left : (v a b : ℕ) → v ⊑ a → v ⊑ bit_or a b
⊑-or_left v a b h = ⊑-or_left_by v v a b (omega arith) h

⊑-or_right_by : (n v a : ℕ) → v ≤ n → v ⊑ bit_or a v
⊑-or_right_by n zero a p = zero_⊑ (bit_or a 0)
⊑-or_right_by zero (suc v) a p = absurd (omega (arith, p))
⊑-or_right_by (suc n) (suc v) a p =
    ⊑-from_digit (suc v) (bit_or a (suc v))
      (subst (λ m. suc v / 2 ⊑ m) (sym (or-half a (suc v)))
        (⊑-or_right_by n (suc v / 2) (a / 2) (omega (arith, p))))
      (omega (arith, or-low a (suc v)))

pub ⊑-or_right : (v a : ℕ) → v ⊑ bit_or a v
⊑-or_right v a = ⊑-or_right_by v v a (omega arith)

or-⊑_by : (n a b m : ℕ) → a + b ≤ n → a ⊑ m → b ⊑ m → bit_or a b ⊑ m
or-⊑_by n zero zero m p h k = subst (λ x. x ⊑ m) (sym (bit_or-bitwise 0 0)) (zero_⊑ m)
or-⊑_by zero (suc a) b m p h k = absurd (omega (arith, p))
or-⊑_by zero zero (suc b) m p h k = absurd (omega (arith, p))
or-⊑_by (suc n) a b m p h k =
    ⊑-from_digit (bit_or a b) m
      (subst (λ x. x ⊑ m / 2) (sym (or-half a b))
        (or-⊑_by n (a / 2) (b / 2) (m / 2) (omega (arith, p)) (⊑-digit a m h).0 (⊑-digit b m k).0))
      (omega (arith, or-low a b, ⊑-digit a m h, ⊑-digit b m k))

pub or-⊑ : (a b m : ℕ) → a ⊑ m → b ⊑ m → bit_or a b ⊑ m
or-⊑ a b m h k = or-⊑_by (a + b) a b m (omega arith) h k

pub or-bound : (k a b : ℕ) → a < 2 ^ k → b < 2 ^ k → bit_or a b < 2 ^ k
or-bound zero zero zero p q = omega (arith, bit_or-bitwise 0 0)
or-bound zero (suc a) b p q = absurd (omega (arith, p))
or-bound zero zero (suc b) p q = absurd (omega (arith, q))
or-bound (suc k) a b p q =
    omega (arith, or_digit a b, or-bound k (a / 2) (b / 2) (omega (arith, p)) (omega (arith, q)))

-- The digit at a position.
unfoldable pub bit_at : ℕ → ℕ → ℕ
bit_at a zero = a % 2
bit_at a (suc k) = bit_at (a / 2) k

pub bit_at-⊑ : (k a m : ℕ) → a ⊑ m → bit_at a k ≤ bit_at m k
unfolding bit_at
bit_at-⊑ zero a m h = (⊑-digit a m h).1
bit_at-⊑ (suc k) a m h = bit_at-⊑ k (a / 2) (m / 2) (⊑-digit a m h).0

pub bit_at-or : (k a b : ℕ) → bit_at (bit_or a b) k ≡ max (bit_at a k) (bit_at b k)
unfolding bit_at
bit_at-or zero a b = or-low a b
bit_at-or (suc k) a b =
    subst (λ c. bit_at c k ≡ max (bit_at (a / 2) k) (bit_at (b / 2) k)) (sym (or-half a b))
      (bit_at-or k (a / 2) (b / 2))

pub bit_at-zero : (k : ℕ) → bit_at 0 k ≡ 0
unfolding bit_at
bit_at-zero zero = refl
bit_at-zero (suc k) = bit_at-zero k

pub bit_at-small : (k a : ℕ) → bit_at a k ≤ 1
unfolding bit_at
bit_at-small zero a = omega arith
bit_at-small (suc k) a = bit_at-small k (a / 2)
