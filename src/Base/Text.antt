-- ===== src/Base/Text.antt =====
-- Text as a list of bytes: comparison, and the searches of `std::string`.
use Prim.Native.Nat.{ℕ, ◌+◌}
use Prim.Native.Char.{code}
use Prim.Native.String.{String}
use mathlib.Core.Path.{◌≡◌, refl, ap}
use mathlib.Core.Bool.{Bool, true, false, ◌&&◌, ◌||◌}
use mathlib.Core.Option.{Option, none, some}
use mathlib.Core.List.{List, [], ◌∷◌, ◌++◌}
use native.Mathlib.Omega.{arith}
use h1z1_server.Base.Tests.{◌==◌, if◌then◌else◌}
use h1z1_server.Base.Lists.{length, All}

-- The bytes of a text in ASCII.
abbrev pub codes : String → List ℕ
codes String.[] = []
codes (String.◌∷◌ c s) = code c ∷ codes s

-- What `strcmp` sees of a string: the bytes in front of the first zero.
unfoldable pub c_string : List ℕ → List ℕ
c_string [] = []
c_string (b ∷ bs) = let rest = c_string bs in if b == 0 then [] else b ∷ rest

unfoldable pub same_bytes : List ℕ → List ℕ → Bool
same_bytes [] [] = true
same_bytes [] (c ∷ cs) = false
same_bytes (b ∷ bs) [] = false
same_bytes (b ∷ bs) (c ∷ cs) = (b == c) && same_bytes bs cs

pub same_bytes-true : (bs cs : List ℕ) → same_bytes bs cs ≡ true → bs ≡ cs
unfolding same_bytes
same_bytes-true [] [] h = refl
same_bytes-true [] (c ∷ cs) h = cc
same_bytes-true (b ∷ bs) [] h = cc
same_bytes-true (b ∷ bs) (c ∷ cs) h = ground (arith, same_bytes-true bs cs)

pub same_bytes_self : (bs : List ℕ) → same_bytes bs bs ≡ true
unfolding same_bytes
same_bytes_self [] = refl
same_bytes_self (b ∷ bs) = ground (arith, same_bytes_self bs)

-- `find` of a text of two characters, as a test.
unfoldable pub contains_pair : ℕ → ℕ → List ℕ → Bool
contains_pair x y [] = false
contains_pair x y (b ∷ []) = false
contains_pair x y (b ∷ c ∷ bs) = ((b == x) && (c == y)) || contains_pair x y (c ∷ bs)

-- `find_last_of`, and `rfind` of one character.
unfoldable pub find_last_of : (ℕ → Bool) → List ℕ → Option ℕ
find_last_of p [] = none
find_last_of p (b ∷ bs) = elim (find_last_of p bs) [
  | some i ↦ some (i + 1)
  | none ↦ if p b then some 0 else none
]

module _ (p : ℕ → Bool) where
  abbrev pub Misses : ℕ → Type 0
  Misses b = p b ≡ false

  pub find_last_of-none : (bs : List ℕ) → All Misses bs → find_last_of p bs ≡ none
  unfolding find_last_of
  find_last_of-none [] h = refl
  find_last_of-none (b ∷ bs) h = rw (find_last_of, find_last_of-none bs h.1, h.0)

  pub find_last_of-append :
      (front : List ℕ) (b : ℕ) (bs : List ℕ)
      → p b ≡ true
      → All Misses bs
      → find_last_of p (front ++ b ∷ bs) ≡ some (length front)
  unfolding find_last_of
  find_last_of-append [] b bs hit h = rw (find_last_of, find_last_of-none bs h, hit)
  find_last_of-append (c ∷ front) b bs hit h =
      rw (find_last_of, find_last_of-append front b bs hit h) (ap some (omega arith))
