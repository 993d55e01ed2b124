-- ===== src/Base/Bits.antt =====
-- Exclusive or, from the recursion on binary digits that the native operation stands for.
use Prim.Native.Nat.{
  ℕ, zero, suc, ◌+◌, ◌*◌, ◌/◌, ◌%◌, ◌^◌, ◌≤◌, ◌<◌, bit_and, bit_or, bit_xor, digits, differ,
  bit_xor-bitwise, bit_and-bitwise, bit_or-bitwise, min, max, bitwise,
}
use mathlib.Core.Path.{◌≡◌, refl, sym, ap, ◌∙◌}
use native.Mathlib.Omega.{arith}
use native.Mathlib.Nat.{pow-suc}

module _ (z : ℕ → ℕ) (f : ℕ → ℕ → ℕ) where
  -- Fuel beyond the number itself changes nothing; `k` bounds the fuel.
  fuel_free : (k m b a : ℕ) → m ≤ k → a ≤ m → digits z f m a b ≡ bitwise z f a b
  fuel_free k zero b zero l h = refl
  fuel_free k (suc m) b zero l h = refl
  fuel_free k zero b (suc a) l h = absurd (omega arith)
  fuel_free zero (suc m) b (suc a) l h = absurd (omega arith)
  fuel_free (suc k) (suc m) b (suc a) l h = omega (
    arith,
    fuel_free k m (b / 2) (suc a / 2) (omega arith) (omega arith),
    fuel_free k a (b / 2) (suc a / 2) (omega arith) (omega arith),
  )

  -- One equation for the lowest digit, without fuel.
  lowest_digit :
      (b a : ℕ)
      → f (suc a % 2) (b % 2) + bitwise z f (suc a / 2) (b / 2) * 2 ≡ bitwise z f (suc a) b
  lowest_digit b a = omega (arith, fuel_free a a (b / 2) (suc a / 2) (omega arith) (omega arith))

digit-lt : (a : ℕ) → a % 2 < 2
digit-lt a = omega arith

differ-add : (x y : ℕ) → x < 2 → y < 2 → differ x y ≡ (x + y) % 2
differ-add zero y p q = omega arith
differ-add (suc zero) zero p q = refl
differ-add (suc zero) (suc zero) p q = refl
differ-add (suc zero) (suc (suc y)) p q = absurd (omega arith)
differ-add (suc (suc x)) y p q = absurd (omega arith)

-- The lowest digit of each operation, as arithmetic.
pub xor_digit : (b a : ℕ) → (a % 2 + b % 2) % 2 + bit_xor (a / 2) (b / 2) * 2 ≡ bit_xor a b
xor_digit b (suc a) = simp bit_xor-bitwise (
    omega (
      arith,
      lowest_digit (λ y. y) differ b a,
      differ-add (suc a % 2) (b % 2) (digit-lt (suc a)) (digit-lt b),
    ))
xor_digit b zero = simp bit_xor-bitwise (omega arith)

pub or_digit : (b a : ℕ) → max (a % 2) (b % 2) + bit_or (a / 2) (b / 2) * 2 ≡ bit_or a b
or_digit b (suc a) = simp bit_or-bitwise (lowest_digit (λ y. y) max b a)
or_digit b zero = simp bit_or-bitwise (omega arith)

pub and_digit : (b a : ℕ) → min (a % 2) (b % 2) + bit_and (a / 2) (b / 2) * 2 ≡ bit_and a b
and_digit b (suc a) = simp bit_and-bitwise (lowest_digit (λ y. 0) min b a)
and_digit b zero = simp bit_and-bitwise (omega arith)

-- Exclusive or with the same number twice changes nothing.
bit_xor_undo_below : (k a b : ℕ) → a ≤ k → bit_xor a (bit_xor a b) ≡ b
bit_xor_undo_below k zero b h = simp bit_xor-bitwise
bit_xor_undo_below zero (suc a) b h = absurd (omega arith)
bit_xor_undo_below (suc k) (suc a) b h =
    rw (sym (xor_digit (bit_xor (suc a) b) (suc a)), halves)
      (omega (arith, xor_digit b (suc a), bit_xor_undo_below k (suc a / 2) (b / 2) (omega arith)))
  where
    halves : bit_xor (suc a) b / 2 ≡ bit_xor (suc a / 2) (b / 2)
    halves = omega (arith, xor_digit b (suc a))

pub bit_xor_undo : (a b : ℕ) → bit_xor a (bit_xor a b) ≡ b
bit_xor_undo a b = bit_xor_undo_below a a b (omega arith)

-- It stays within the width of its operands.
pub bit_xor-lt : (k a b : ℕ) → a < 2 ^ k → b < 2 ^ k → bit_xor a b < 2 ^ k
bit_xor-lt zero zero zero p q = omega arith
bit_xor-lt zero zero (suc b) p q = absurd (omega arith)
bit_xor-lt zero (suc a) b p q = absurd (omega arith)
bit_xor-lt (suc k) a b p q = omega (
  arith,
  xor_digit b a,
  pow-suc 2 k,
  bit_xor-lt k (a / 2) (b / 2) (omega (arith, pow-suc 2 k)) (omega (arith, pow-suc 2 k)),
)

bit_or-zero : (k a : ℕ) → a ≤ k → bit_or a 0 ≡ a
bit_or-zero k zero h = simp bit_or-bitwise
bit_or-zero zero (suc a) h = absurd (omega arith)
bit_or-zero (suc k) (suc a) h =
    omega (arith, or_digit 0 (suc a), bit_or-zero k (suc a / 2) (omega arith))

-- A number shifted left by k digits, with another in the digits that are free.
pub bit_or_disjoint : (k q r : ℕ) → r < 2 ^ k → bit_or (q * 2 ^ k) r ≡ q * 2 ^ k + r
bit_or_disjoint zero q zero h = bit_or-zero (q * 1) (q * 1) (omega arith) ∙ omega arith
bit_or_disjoint zero q (suc r) h = absurd (omega arith)
bit_or_disjoint (suc k) q r h = rw doubled (
    omega (
      arith,
      or_digit r (2 * (q * 2 ^ k)),
      ap (λ (t : ℕ). bit_or t (r / 2)) halved,
      bit_or_disjoint k q (r / 2) (omega (arith, pow-suc 2 k)),
    ))
  where
    doubled : q * 2 ^ suc k ≡ 2 * (q * 2 ^ k)
    doubled = omega (arith, ap (λ (t : ℕ). q * t) (pow-suc 2 k))

    halved : 2 * (q * 2 ^ k) / 2 ≡ q * 2 ^ k
    halved = omega arith

bit_and-zero : (k a : ℕ) → a ≤ k → bit_and a 0 ≡ 0
bit_and-zero k zero h = simp bit_and-bitwise
bit_and-zero zero (suc a) h = absurd (omega arith)
bit_and-zero (suc k) (suc a) h =
    omega (arith, and_digit 0 (suc a), bit_and-zero k (suc a / 2) (omega arith))

-- A mask of four ones, and of eight.
low_four : (v : ℕ) → bit_and v 15 ≡ v % 16
low_four v = omega (
  arith,
  and_digit 15 v,
  and_digit 7 (v / 2),
  and_digit 3 (v / 2 / 2),
  and_digit 1 (v / 2 / 2 / 2),
  bit_and-zero (v / 2 / 2 / 2 / 2) (v / 2 / 2 / 2 / 2) (omega arith),
)

low_byte : (v : ℕ) → bit_and v 0xff ≡ v % 256
low_byte v = omega (
  arith,
  and_digit 255 v,
  and_digit 127 (v / 2),
  and_digit 63 (v / 2 / 2),
  and_digit 31 (v / 2 / 2 / 2),
  low_four (v / 2 / 2 / 2 / 2),
)

shifted_one : (v m : ℕ) → bit_and v (2 * m) ≡ 2 * bit_and (v / 2) m
shifted_one v m = omega (arith, and_digit (2 * m) v, ap (λ (t : ℕ). bit_and (v / 2) t) unshifted)
  where
    unshifted : 2 * m / 2 ≡ m
    unshifted = omega arith

shifted_four : (v m : ℕ) → bit_and v (2 * (2 * (2 * (2 * m)))) ≡ 16 * bit_and (v / 2 / 2 / 2 / 2) m
shifted_four v m = omega (
  arith,
  shifted_one v (2 * (2 * (2 * m))),
  shifted_one (v / 2) (2 * (2 * m)),
  shifted_one (v / 2 / 2) (2 * m),
  shifted_one (v / 2 / 2 / 2) m,
)

high_byte : (v : ℕ) → bit_and v 0xff00 / 2 ^ 8 ≡ v / 256 % 256
high_byte v = omega (
  arith,
  shifted_four v 0xff0,
  shifted_four (v / 2 / 2 / 2 / 2) 0xff,
  low_byte (v / 2 / 2 / 2 / 2 / 2 / 2 / 2 / 2),
)

-- The swap of the two bytes of a word, by masks and shifts.
pub swap_masks :
    (v : ℕ)
    → v < 2 ^ 16
    → bit_or (bit_and v 0xff * 2 ^ 8) (bit_and v 0xff00 / 2 ^ 8) ≡ v % 256 * 256 + v / 256
swap_masks v h =
    rw (low_byte v, high_byte v)
      (omega (arith, bit_or_disjoint 8 (v % 256) (v / 256 % 256) (omega arith)))
