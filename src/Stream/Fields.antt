-- ===== src/Stream/Fields.antt =====
-- The words as one family: the four widths, the method that each goes through, and their form in
-- the block, which is described apart from the code.
use h1z1_server.Base.{
  ℕ, ◌+◌, ◌*◌, ◌/◌, ◌%◌, ◌^◌, ◌≤◌, ◌<◌, ◌≡◌, refl, sym, ◌∙◌, ap, Bool, true, false, List, ◌++◌,
  reverse, length, take, drop, arith, Outcome, done, minus_one, le_bytes, from_le, byteswap,
  length-le_bytes, length-reverse, from_le-le_bytes, le_bytes-byteswap, byteswap-byteswap,
  swap_masks, if◌then◌else◌, All, IsByte, All-reverse, le_bytes-All, from_le-lt, take-append,
  drop-append, length-append,
}
use h1z1_server.Stream.Buffer.{Stream}
use h1z1_server.Stream.Writer.{
  write_data, write_byte, write_word, write_dword, write_qword, auto_endian2, auto_endian4,
  auto_endian8,
}
use h1z1_server.Stream.Reader.{read_data, read_byte, read_word, read_dword, read_qword}
use h1z1_server.Stream.Valid.{IsValid, HasRoom}
use h1z1_server.Stream.Appends.{Appends, write_data-Appends}
use h1z1_server.Stream.Consumes.{remaining, read_data-take, remaining-advance, IsValid-advance}

pub data Width : Type 0 where
  byte word dword qword : Width

abbrev pub size_of : Width → ℕ
size_of byte = 1
size_of word = 2
size_of dword = 4
size_of qword = 8

pub size_of-pos : (w : Width) → 0 < size_of w
size_of-pos byte = omega arith
size_of-pos word = omega arith
size_of-pos dword = omega arith
size_of-pos qword = omega arith

-- Most significant byte first if `big`, else least significant byte first.
unfoldable pub encode : Bool → Width → ℕ → List ℕ
encode big w v = if big then reverse (le_bytes (size_of w) v) else le_bytes (size_of w) v

unfoldable pub write_field : (ℕ → Bool) → Stream → Width → ℕ → Outcome Stream Stream
write_field malloc s byte v = write_byte malloc s v minus_one
write_field malloc s word v = write_word malloc s v minus_one
write_field malloc s dword v = write_dword malloc s v minus_one
write_field malloc s qword v = write_qword malloc s v minus_one

unfoldable pub read_field : Stream → Width → Outcome Stream (ℕ × Stream)
read_field s byte = read_byte s minus_one
read_field s word = read_word s minus_one
read_field s dword = read_dword s minus_one
read_field s qword = read_qword s minus_one

pub length-encode : (big : Bool) (w : Width) (v : ℕ) → length (encode big w v) ≡ size_of w
unfolding encode
length-encode true w v = length-reverse (le_bytes (size_of w) v) ∙ length-le_bytes (size_of w) v
length-encode false w v = length-le_bytes (size_of w) v

-- The conditional swap of each width, in one form.
swapped : Bool → Width → ℕ → ℕ
swapped big w v = if big then byteswap (size_of w) v else v

byteswap-one : (v : ℕ) → v < 256 → byteswap 1 v ≡ v
unfolding byteswap le_bytes from_le
byteswap-one v h = omega arith

byteswap-two : (v : ℕ) → v < 256 ^ 2 → byteswap 2 v ≡ v % 256 * 256 + v / 256
unfolding byteswap le_bytes from_le
byteswap-two v h = omega arith

auto_endian2-swapped : (big : Bool) (v : ℕ) → v < 256 ^ 2 → auto_endian2 big v ≡ swapped big word v
unfolding auto_endian2 swapped
auto_endian2-swapped true v h = swap_masks v h ∙ sym (byteswap-two v h)
auto_endian2-swapped false v h = refl

le_bytes-swapped :
    (big : Bool) (w : Width) (v : ℕ) → le_bytes (size_of w) (swapped big w v) ≡ encode big w v
unfolding swapped encode
le_bytes-swapped true w v = le_bytes-byteswap (size_of w) v
le_bytes-swapped false w v = refl

pub encode-All : (big : Bool) (w : Width) (v : ℕ) → All IsByte (encode big w v)
unfolding encode
encode-All true w v = All-reverse IsByte (le_bytes (size_of w) v) (le_bytes-All (size_of w) v)
encode-All false w v = le_bytes-All (size_of w) v

pub from_le-encode-lt :
    (big : Bool) (w : Width) (v : ℕ) → from_le (encode big w v) < 256 ^ size_of w
from_le-encode-lt big w v =
    rw (length-encode big w v) at (from_le-lt (encode big w v) (encode-All big w v))

-- A single byte has one order.
swapped-byte : (big : Bool) (v : ℕ) → v < 256 → swapped big byte v ≡ v
unfolding swapped
swapped-byte true v h = byteswap-one v h
swapped-byte false v h = refl

-- Each method writes its word, swapped where the stream asks for it.
write_field-swapped :
    (malloc : ℕ → Bool) (s : Stream) (w : Width) (v : ℕ)
    → v < 256 ^ size_of w
    → write_field malloc s w v
      ≡ write_data malloc s (le_bytes (size_of w) (swapped s.big_endian w v)) (size_of w) minus_one
unfolding write_field write_byte write_word write_dword write_qword auto_endian4 auto_endian8
write_field-swapped malloc s byte v h = rw (swapped-byte s.big_endian v h)
write_field-swapped malloc s word v h = rw (auto_endian2-swapped s.big_endian v h)
write_field-swapped malloc s dword v h = unfold swapped in refl
write_field-swapped malloc s qword v h = unfold swapped in refl

-- The write of a byte, word, dword or qword in range, at the index of a valid stream with room,
-- or with leave and memory to grow, appends its bytes, the most significant first on a big-
-- endian stream and the least significant first on a little-endian one.
pub write_field-Appends :
    (malloc : ℕ → Bool) (s : Stream) (w : Width) (v : ℕ)
    → IsValid s
    → v < 256 ^ size_of w
    → HasRoom malloc s (size_of w) false
    → Appends s (size_of w) (encode s.big_endian w v) (write_field malloc s w v)
write_field-Appends malloc s w v valid h room =
    rw
      (
        write_field-swapped malloc s w v h,
        le_bytes-swapped s.big_endian w v,
        ← length-encode s.big_endian w v,
      )
      (write_data-Appends malloc s (encode s.big_endian w v) valid
        (rw (length-encode s.big_endian w v) (size_of-pos w))
        (rw (length-encode s.big_endian w v) room))

-- Each method decodes the bytes that it is given.
read_field-swapped :
    (s t : Stream) (w : Width) (bytes : List ℕ)
    → from_le bytes < 256 ^ size_of w
    → read_data s (size_of w) minus_one ≡ done (bytes, t)
    → read_field s w ≡ done (swapped s.big_endian w (from_le bytes), t)
unfolding read_field read_byte read_word read_dword read_qword auto_endian4 auto_endian8 swapped
read_field-swapped s t byte bytes h e =
    rw e (ap (λ (v : ℕ). done (v, t)) (sym (swapped-byte s.big_endian (from_le bytes) h)))
read_field-swapped s t word bytes h e =
    rw e (ap (λ (v : ℕ). done (v, t)) (auto_endian2-swapped s.big_endian (from_le bytes) h))
read_field-swapped s t dword bytes h e = rw e
read_field-swapped s t qword bytes h e = rw e

-- What is decoded from an encoding is the word.
decode-encode :
    (big : Bool) (w : Width) (v : ℕ)
    → v < 256 ^ size_of w
    → swapped big w (from_le (encode big w v)) ≡ v
unfolding swapped encode byteswap from_le
decode-encode true w v h = byteswap-byteswap (size_of w) v h
decode-encode false w v h = from_le-le_bytes (size_of w) v h

-- A normal return of the word `v`, with `rest` left to read in the same block.
pub record Reads (s : Stream) (v : ℕ) (rest : List ℕ) (r : Outcome Stream (ℕ × Stream))
    : Type 0 where
  pub out : Stream
  pub returns : r ≡ done (v, out)
  pub valid : IsValid out
  pub left : remaining out ≡ rest
  pub same_block : out.buffer ≡ s.buffer
  pub same_endian : out.big_endian ≡ s.big_endian

-- The read of a byte, word, dword or qword, where its bytes in the byte order of a valid stream
-- stand at the index, returns it and leaves the bytes behind it, the block and the byte order.
pub read_field-Reads :
    (s : Stream) (w : Width) (v : ℕ) (rest : List ℕ)
    → IsValid s
    → v < 256 ^ size_of w
    → remaining s ≡ encode s.big_endian w v ++ rest
    → Reads s v rest (read_field s w)
read_field-Reads s w v rest valid h next = record {
  out = record s { idx = s.idx + size_of w };
  returns =
      read_field-swapped s _ w (encode s.big_endian w v) (from_le-encode-lt s.big_endian w v) (
        read_data-take s valid (size_of w) (size_of-pos w) enough
        ∙ ap (λ (bytes : List ℕ). done (bytes, record s { idx = s.idx + size_of w })) first)
      ∙ ap (λ (x : ℕ). done (x, record s { idx = s.idx + size_of w }))
          (decode-encode s.big_endian w v h);
  valid = IsValid-advance s valid (size_of w) enough;
  left =
      remaining-advance s valid (size_of w)
      ∙ ap (drop (size_of w)) next
      ∙ drop-append (size_of w) (encode s.big_endian w v) rest size;
  same_block = refl;
  same_endian = refl;
}
  where
    size : size_of w ≡ length (encode s.big_endian w v)
    size = sym (length-encode s.big_endian w v)

    enough : size_of w ≤ length (remaining s)
    enough = omega (arith, size, ap length next, length-append (encode s.big_endian w v) rest)

    first : take (size_of w) (remaining s) ≡ encode s.big_endian w v
    first = ap (take (size_of w)) next ∙ take-append (size_of w) (encode s.big_endian w v) rest size

pub auto_endian4-encode :
    (big : Bool) (v : ℕ) → v < 256 ^ 4 → auto_endian4 big (from_le (encode big dword v)) ≡ v
unfolding auto_endian4 swapped
auto_endian4-encode big v h = decode-encode big dword v h
