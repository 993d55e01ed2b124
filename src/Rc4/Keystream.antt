-- ===== src/Rc4/Keystream.antt =====
-- The loop of `Encrypt` against its description: bytes combined with a key stream that does not
-- depend on them.
use Prim.Native.Nat.{bit_xor}
use h1z1_server.Base.{
  ℕ, zero, suc, ◌+◌, ◌%◌, ◌≤◌, ◌<◌, ◌≡◌, refl, ◌∙◌, ap, ap₂, List, [], ◌∷◌, length, get_or, set,
  arith, done, get_elem?-eq-get_or, length-set, bit_xor_undo, drop,
}
use h1z1_server.Rc4.{Crc4, at_index, swap, crypt, encrypt, ready}

-- The two indices after a round, and the memory.
abbrev next_i : ℕ → ℕ
next_i i = (i + 1) % 256

abbrev next_j : ℕ → ℕ → List ℕ → ℕ
next_j i j m = (j + get_or m (next_i i) 0) % 256

abbrev next_memory : ℕ → ℕ → List ℕ → List ℕ
next_memory i j m = swap m (next_i i) (next_j i j m)

-- The byte of the key stream that a round gives.
abbrev stream_byte : ℕ → ℕ → List ℕ → ℕ
stream_byte i j m =
    get_or (next_memory i j m)
      ((get_or (next_memory i j m) (next_i i) 0 + get_or (next_memory i j m) (next_j i j m) 0)
        % 256)
      0

-- The key stream of `n` bytes, and the memory behind it.
pub keystream : ℕ → ℕ → ℕ → List ℕ → List ℕ
keystream zero i j m = []
keystream (suc n) i j m =
    stream_byte i j m ∷ keystream n (next_i i) (next_j i j m) (next_memory i j m)

pub memory_after : ℕ → ℕ → ℕ → List ℕ → List ℕ
memory_after zero i j m = m
memory_after (suc n) i j m = memory_after n (next_i i) (next_j i j m) (next_memory i j m)

-- Bytes combined with a key stream; what is longer than the stream stays.
pub combine : List ℕ → List ℕ → List ℕ
combine [] bytes = bytes
combine (k ∷ ks) [] = []
combine (k ∷ ks) (b ∷ bytes) = bit_xor k b ∷ combine ks bytes

pub at_index-get_or : (m : List ℕ) (i : ℕ) → i < length m → at_index m i ≡ done (get_or m i 0)
at_index-get_or m i h = rw (get_elem?-eq-get_or m i 0 h, at_index)

pub length-swap : (m : List ℕ) (i j : ℕ) → length (swap m i j) ≡ length m
length-swap m i j =
    length-set (set m i (get_or m j 0)) j (get_or m i 0) ∙ length-set m i (get_or m j 0)

-- Enough memory and enough bytes: the loop succeeds, and what it does to the bytes is `combine`.
pub crypt-combine :
    (n i j : ℕ) (m bytes : List ℕ)
    → 256 ≤ length m
    → n ≤ length bytes
    → crypt n i j m bytes ≡ done (combine (keystream n i j m) bytes, memory_after n i j m)
unfolding crypt keystream memory_after combine
crypt-combine zero i j m bytes room enough = refl
crypt-combine (suc n) i j m [] room enough = absurd (omega arith)
crypt-combine (suc n) i j m (b ∷ bytes) room enough = rw (
  at_index-get_or m (next_i i) (omega (arith, room)),
  at_index-get_or (next_memory i j m) (next_i i) (omega (arith, room, size)),
  at_index-get_or (next_memory i j m) (next_j i j m) (omega (arith, room, size)),
  at_index-get_or (next_memory i j m)
      ((get_or (next_memory i j m) (next_i i) 0 + get_or (next_memory i j m) (next_j i j m) 0)
        % 256)
      (omega (arith, room, size)),
  crypt-combine n (next_i i) (next_j i j m) (next_memory i j m) bytes (omega (arith, room, size))
      (omega arith),
)
  where
    size : length (next_memory i j m) ≡ length m
    size = length-swap m (next_i i) (next_j i j m)

length-combine :
    (ks bytes : List ℕ) → length ks ≤ length bytes → length (combine ks bytes) ≡ length bytes
unfolding combine
length-combine [] bytes h = refl
length-combine (k ∷ ks) [] h = absurd (omega arith)
length-combine (k ∷ ks) (b ∷ bytes) h = ap suc (length-combine ks bytes (omega arith))

combine-combine :
    (ks bytes : List ℕ) → length ks ≤ length bytes → combine ks (combine ks bytes) ≡ bytes
unfolding combine
combine-combine [] bytes h = refl
combine-combine (k ∷ ks) [] h = absurd (omega arith)
combine-combine (k ∷ ks) (b ∷ bytes) h =
    ap₂ ◌∷◌ (bit_xor_undo k b) (combine-combine ks bytes (omega arith))

drop-combine :
    (n : ℕ) (ks bytes : List ℕ) → length ks ≡ n → drop n (combine ks bytes) ≡ drop n bytes
unfolding combine
drop-combine zero [] bytes h = refl
drop-combine zero (k ∷ ks) bytes h = absurd (omega arith)
drop-combine (suc n) [] bytes h = absurd (omega arith)
drop-combine (suc n) (k ∷ ks) [] h = refl
drop-combine (suc n) (k ∷ ks) (b ∷ bytes) h = drop-combine n ks bytes (omega arith)

length-keystream : (n i j : ℕ) (m : List ℕ) → length (keystream n i j m) ≡ n
unfolding keystream
length-keystream zero i j m = refl
length-keystream (suc n) i j m = ap suc (length-keystream n _ _ _)

-- `Encrypt` on an object whose state is ready or can be made so: the bytes are combined with the
-- key stream of that state, and the state is marked as used.
pub encrypt-combine :
    (c c' : Crc4) (bytes : List ℕ) (size : ℕ)
    → ready c ≡ done c'
    → 256 ≤ length c'.memory
    → size ≤ length bytes
    → encrypt c bytes size
      ≡ done (
        combine (keystream size 0 0 c'.memory) bytes,
        record c' { memory = set (memory_after size 0 0 c'.memory) 256 0 },
      )
unfolding encrypt
encrypt-combine c c' bytes size e room enough =
    rw (e, crypt-combine size 0 0 c'.memory bytes room enough)

-- From one state of the cipher object, which is ready or made ready by the key it keeps and
-- which has the memory of its `sbox`, `Encrypt` of at most the bytes at hand succeeds, what it
-- gives is given back by `Encrypt`, and the bytes past the size are not touched.
pub encrypt-encrypt :
    (c c' : Crc4) (bytes : List ℕ) (size : ℕ)
    → ready c ≡ done c'
    → 256 ≤ length c'.memory
    → size ≤ length bytes
    → (out : List ℕ) × (used : Crc4) × (encrypt c bytes size ≡ done (out, used))
      × (encrypt c out size ≡ done (bytes, used))
      × (length out ≡ length bytes)
      × (drop size out ≡ drop size bytes)
encrypt-encrypt c c' bytes size e room enough = (
  combine stream bytes,
  record c' { memory = set (memory_after size 0 0 c'.memory) 256 0 },
  encrypt-combine c c' bytes size e room enough,
  encrypt-combine c c' (combine stream bytes) size e room (omega (arith, same_length, enough))
      ∙ ap
          (λ (xs : List ℕ).
            done (xs, record c' { memory = set (memory_after size 0 0 c'.memory) 256 0 }))
          (combine-combine stream bytes long),
  same_length,
  drop-combine size stream bytes (length-keystream size 0 0 c'.memory),
)
  where
    stream : List ℕ
    stream = keystream size 0 0 c'.memory

    long : length stream ≤ length bytes
    long = omega (arith, length-keystream size 0 0 c'.memory, enough)

    same_length : length (combine stream bytes) ≡ length bytes
    same_length = length-combine stream bytes long
