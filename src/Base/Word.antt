-- ===== src/Base/Word.antt =====
-- Machine words as native numbers. An `int` and a 32-bit `SIZE_T` are both kept as the bit pattern
-- below 2 ^ 32, so that mixed arithmetic wraps as it does in C++; -1 is the largest pattern.
use Prim.Native.Nat.{ℕ, zero, suc, ◌+◌, ◌-◌, ◌*◌, ◌/◌, ◌%◌, ◌^◌, ◌<◌}
use mathlib.Core.Path.{◌≡◌, refl, ◌∙◌, ap, ap₂}
use mathlib.Core.List.{List, [], ◌∷◌, reverse, reverse-reverse}
use native.Mathlib.Omega.{arith}
use native.Mathlib.Nat.{pow-suc}
use h1z1_server.Base.Lists.{length, length-reverse, All, All-reverse}

abbrev pub add32 : ℕ → ℕ → ℕ
add32 a b = (a + b) % 2 ^ 32

abbrev pub sub32 : ℕ → ℕ → ℕ
sub32 a b = (a + 2 ^ 32 - b) % 2 ^ 32

abbrev pub minus_one : ℕ
minus_one = 0xffff_ffff

abbrev pub IsByte : ℕ → Type 0
IsByte b = b < 256

-- The memory of an n-byte word on x86: least significant byte first.
unfoldable pub le_bytes : ℕ → ℕ → List ℕ
le_bytes zero v = []
le_bytes (suc n) v = (v % 256) ∷ le_bytes n (v / 256)

unfoldable pub from_le : List ℕ → ℕ
from_le [] = 0
from_le (b ∷ bs) = b + 256 * from_le bs

-- The compiler's byte swap of an n-byte word.
unfoldable pub byteswap : ℕ → ℕ → ℕ
byteswap n v = from_le (reverse (le_bytes n v))

pub length-le_bytes : (n v : ℕ) → length (le_bytes n v) ≡ n
unfolding le_bytes
length-le_bytes zero v = refl
length-le_bytes (suc n) v = ap suc (length-le_bytes n (v / 256))

pub le_bytes-All : (n v : ℕ) → All IsByte (le_bytes n v)
unfolding le_bytes
le_bytes-All zero v = tt
le_bytes-All (suc n) v = (omega arith, le_bytes-All n (v / 256))

pub from_le-le_bytes : (n v : ℕ) → v < 256 ^ n → from_le (le_bytes n v) ≡ v
unfolding le_bytes from_le
from_le-le_bytes zero v h = omega arith
from_le-le_bytes (suc n) v h =
    omega (arith, from_le-le_bytes n (v / 256) (omega (arith, pow-suc 256 n)))

pub le_bytes-from_le : (bs : List ℕ) → All IsByte bs → le_bytes (length bs) (from_le bs) ≡ bs
unfolding le_bytes from_le
le_bytes-from_le [] h = refl
le_bytes-from_le (b ∷ bs) h = ap₂ ◌∷◌ low (rw high (le_bytes-from_le bs h.1))
  where
    low : (b + 256 * from_le bs) % 256 ≡ b
    low = omega (arith, h.0)

    high : (b + 256 * from_le bs) / 256 ≡ from_le bs
    high = omega (arith, h.0)

-- In memory a byte swap is a reversal.
pub le_bytes-byteswap : (n v : ℕ) → le_bytes n (byteswap n v) ≡ reverse (le_bytes n v)
unfolding byteswap
le_bytes-byteswap n v =
    rw size at (le_bytes-from_le (reverse (le_bytes n v)) (All-reverse IsByte _ (le_bytes-All n v)))
  where
    size : length (reverse (le_bytes n v)) ≡ n
    size = omega (arith, length-reverse (le_bytes n v), length-le_bytes n v)

pub byteswap-byteswap : (n v : ℕ) → v < 256 ^ n → byteswap n (byteswap n v) ≡ v
unfolding byteswap
byteswap-byteswap n v h =
    ap (λ (bs : List ℕ). from_le (reverse bs)) (le_bytes-byteswap n v)
    ∙ ap from_le (reverse-reverse (le_bytes n v))
    ∙ from_le-le_bytes n v h

pub from_le-lt : (bs : List ℕ) → All IsByte bs → from_le bs < 256 ^ length bs
unfolding from_le
from_le-lt [] h = omega arith
from_le-lt (b ∷ bs) h = omega (arith, h.0, from_le-lt bs h.1, pow-suc 256 (length bs))
