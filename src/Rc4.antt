-- ===== src/Rc4.antt =====
-- The cipher class `CRC4` of SonyNetworking/RC4. The loop of the key schedule runs to the size of
-- the member `key`, which is 260, and indexes `sbox`, which has 256 bytes; so the memory of an
-- object is kept flat from `sbox` on: 256 bytes of `sbox`, then `sbox_free`, then the three bytes
-- of memory that follow the object, which the loop reads and writes.
pub mod Keystream
pub mod Schedule
use Prim.Native.Nat.{bit_xor}
use h1z1_server.Base.{
  ℕ, zero, suc, ◌+◌, ◌%◌, List, [], ◌∷◌, ◌++◌, none, some, ltb, leb, ◌==◌, if◌then◌else◌, get_elem?,
  get_or, set, take, drop, length, le_bytes, from_le, Outcome, done, threw, fault, key_too_big,
  ◌>>=◌,
}

pub record Crc4 : Type 0 where
  pub key : List ℕ
  pub memory : List ℕ

-- `sbox_free` stands right behind `sbox`.
abbrev pub sbox_free : Crc4 → ℕ
sbox_free c = get_or c.memory 256 0

-- A read through a pointer or an array.
abbrev pub at_index : List ℕ → ℕ → Outcome Crc4 ℕ
at_index xs i = elim (get_elem? xs i) [ none ↦ fault | some x ↦ done x ]

-- `std::swap(sbox[i], sbox[j])`, with both indices inside.
abbrev pub swap : List ℕ → ℕ → ℕ → List ℕ
swap m i j = set (set m i (get_or m j 0)) j (get_or m i 0)

-- The loop that fills `sbox`, with `n` rounds left.
unfoldable pub fill : ℕ → ℕ → List ℕ → List ℕ
fill zero i m = m
fill (suc n) i m = fill n (i + 1) (set m i (i % 256))

-- The loop of the key schedule, with `n` rounds left.
unfoldable pub schedule : List ℕ → ℕ → ℕ → ℕ → ℕ → List ℕ → Outcome Crc4 (List ℕ)
schedule key size zero i j m = done m
schedule key size (suc n) i j m = do
  k ← at_index key (i % size)
  x ← at_index m i
  schedule key size n (i + 1) ((j + k + x) % 256) (swap m i ((j + k + x) % 256))

-- The size, and the key behind it, as they are kept for the next initialization.
unfoldable pub keep_key : List ℕ → List ℕ → ℕ → Outcome Crc4 (List ℕ)
keep_key kept key size =
    if leb size (length key)
    then done (le_bytes 4 size ++ (take size key ++ drop (4 + size) kept))
    else fault

-- `Initialize`. A key of no bytes is a division by zero.
unfoldable pub initialize : Crc4 → List ℕ → ℕ → Outcome Crc4 Crc4
initialize c key size =
    if ltb 256 size then threw key_too_big c else if size == 0 then fault else do
      m ← schedule key size 260 0 0 (fill 256 0 c.memory)
      kept ← keep_key c.key key size
      done (record { key = kept; memory = set m 256 1 })

-- The loop of `Encrypt`, with `n` rounds left, over the bytes from `data + n` on.
unfoldable pub crypt : ℕ → ℕ → ℕ → List ℕ → List ℕ → Outcome Crc4 (List ℕ × List ℕ)
crypt zero i j m bytes = done (bytes, m)
crypt (suc n) i j m [] = fault
crypt (suc n) i j m (b ∷ bytes) = do
  x ← at_index m ((i + 1) % 256)
  p ← at_index (swap m ((i + 1) % 256) ((j + x) % 256)) ((i + 1) % 256)
  q ← at_index (swap m ((i + 1) % 256) ((j + x) % 256)) ((j + x) % 256)
  rnd ← at_index (swap m ((i + 1) % 256) ((j + x) % 256)) ((p + q) % 256)
  rest ← crypt n ((i + 1) % 256) ((j + x) % 256) (swap m ((i + 1) % 256) ((j + x) % 256)) bytes
  done (bit_xor rnd b ∷ rest.0, rest.1)

-- The key that was kept, used again where the last call has used the state up.
unfoldable pub ready : Crc4 → Outcome Crc4 Crc4
ready c = if sbox_free c == 0 then initialize c (drop 4 c.key) (from_le (take 4 c.key)) else done c

-- `Encrypt`, which `Decrypt` calls: the bytes and the object after the call.
unfoldable pub encrypt : Crc4 → List ℕ → ℕ → Outcome Crc4 (List ℕ × Crc4)
encrypt c bytes size = do
  c' ← ready c
  r ← crypt size 0 0 c'.memory bytes
  done (r.0, record c' { memory = set r.1 256 0 })

-- `CopyEncrypt`, which `CopyDecrypt` calls: the loop runs on a copy of the bytes.
unfoldable pub copy_encrypt : Crc4 → List ℕ → ℕ → Outcome Crc4 (List ℕ × Crc4)
copy_encrypt c bytes size =
    if leb size (length bytes) then encrypt c (take size bytes) size else fault

-- The constructor with a key, over memory that nothing has been written to.
unfoldable pub init_crc4 : List ℕ → List ℕ → List ℕ → ℕ → Outcome Crc4 Crc4
init_crc4 key_memory memory key size =
    initialize (record { key = key_memory; memory = memory }) key size
