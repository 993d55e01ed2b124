-- ===== src/Stream/TextRoundTrip.antt =====
-- Strings written by `WriteString` and read back by `ReadString`.
use h1z1_server.Base.{
  ap₂, take-append, byteswap, ℕ, ◌+◌, ◌*◌, ◌^◌, ◌≤◌, ◌<◌, ◌≡◌, refl, sym, ◌∙◌, ap, Bool, true,
  false, List, [], ◌∷◌, ◌++◌, length, take, arith, Outcome, done, threw, too_many_bytes, minus_one,
  le_bytes, All, ◌==◌, if◌then◌else◌, length-append, length-le_bytes, add32, lt→ltb, le→ltb,
  from_le,
}
use mathlib.Core.List.{append_assoc}
use h1z1_server.Stream.Buffer.{Stream, set_idx}
use h1z1_server.Stream.Valid.{IsValid, HasRoom}
use h1z1_server.Stream.Appends.{Appends}
use h1z1_server.Stream.Consumes.{remaining, length-remaining}
use h1z1_server.Stream.Access.{safety_check-index}
use h1z1_server.Stream.Writer.{auto_endian4}
use h1z1_server.Stream.Reader.{init_reader}
use h1z1_server.Stream.Fields.{dword, encode, length-encode}
use h1z1_server.Stream.ReadBack.{
  reader_at, reader_at-IsValid, reader_at-endian, remaining-reader_at,
}
use h1z1_server.Stream.Text.{
  StringInterpretMode, until_null_term, given_size, given_size_null_term, terminator, write_string,
  read_string, read_size,
}
use h1z1_server.Stream.TextStore.{encode_string}
use h1z1_server.Stream.TextWrite.{HasSpare, write_string-Appends}
use h1z1_server.Stream.TextRead.{is_sized, read_string-sized, read_string-mode, read_dword-start}
use h1z1_server.Stream.TextScan.{IsNonzero, read_string-until_null}

-- `r` reads the string `str` with the stream `t` as its state then.
pub record ReadsString (str : List ℕ) (idx : ℕ) (r : Outcome Stream (List ℕ × Stream))
    : Type 0 where
  pub out : Stream
  pub returns : r ≡ done (str, out)
  pub ends_at : out.idx ≡ idx

-- The terminator of a mode, and the form of a sized string.
terminator_bytes : StringInterpretMode → List ℕ
terminator_bytes until_null_term = 0 ∷ []
terminator_bytes given_size = []
terminator_bytes given_size_null_term = 0 ∷ []

encode_string-sized :
    (mode : StringInterpretMode) (str rest : List ℕ)
    → is_sized mode ≡ true
    → encode_string mode str ++ rest
      ≡ encode false dword (length str) ++ (str ++ (terminator_bytes mode ++ rest))
unfolding encode_string encode terminator_bytes
encode_string-sized until_null_term str rest e = cc
encode_string-sized given_size str rest e = append_assoc (le_bytes 4 (length str)) str rest
encode_string-sized given_size_null_term str rest e =
    append_assoc (le_bytes 4 (length str)) (str ++ 0 ∷ []) rest
    ∙ ap (◌++◌ (le_bytes 4 (length str))) (append_assoc str (0 ∷ []) rest)

length-encode_string_sized :
    (mode : StringInterpretMode) (str : List ℕ)
    → is_sized mode ≡ true
    → length (encode_string mode str) ≡ 4 + length str + terminator mode 1
unfolding encode_string
length-encode_string_sized until_null_term str e = cc
length-encode_string_sized given_size str e =
    omega (arith, length-append (le_bytes 4 (length str)) str, length-le_bytes 4 (length str))
length-encode_string_sized given_size_null_term str e = omega (
  arith,
  length-append (le_bytes 4 (length str)) (str ++ 0 ∷ []),
  length-append str (0 ∷ []),
  length-le_bytes 4 (length str),
)

-- The size of a short string, stored with its least significant byte first, is at least 2 ^ 24
-- to a big-endian reader.
swapped_short : (n : ℕ) → n < 256 → auto_endian4 true (from_le (encode false dword n)) ≡ n * 2 ^ 24
unfolding auto_endian4 encode byteswap le_bytes from_le
swapped_short n h = omega arith

swapped_size-throws :
    (s : Stream) (v : IsValid s) (n : ℕ) (rest : List ℕ)
    → s.big_endian ≡ true
    → 0 < n
    → n < 256
    → s.buffer_size < 2 ^ 24
    → remaining s ≡ encode false dword n ++ rest
    → read_size s s.idx ≡ threw too_many_bytes s
unfolding read_size
swapped_size-throws s v n rest big pos short small next =
    rw (no_wrap, le→ltb s.buffer_size (s.idx + 4) fits, read_dword-start s v s.idx fits, decoded)
      (rw (lt→ltb s.buffer_size (add32 (s.idx + 4) (n * 2 ^ 24)) beyond))
  where
    fits : s.idx + 4 ≤ s.buffer_size
    fits = omega (
      arith,
      ap length next,
      length-append (encode false dword n) rest,
      length-encode false dword n,
      length-remaining s v,
      v.inside,
    )

    no_wrap : add32 s.idx 4 ≡ s.idx + 4
    no_wrap = omega (arith, fits, v.small)

    decoded : auto_endian4 s.big_endian (from_le (take 4 (remaining s))) ≡ n * 2 ^ 24
    decoded =
        ap₂ (λ (b : Bool) (bs : List ℕ). auto_endian4 b (from_le (take 4 bs))) big next
        ∙ ap (λ (bs : List ℕ). auto_endian4 true (from_le bs))
            (take-append 4 (encode false dword n) rest (sym (length-encode false dword n)))
        ∙ swapped_short n short

    beyond : s.buffer_size < add32 (s.idx + 4) (n * 2 ^ 24)
    beyond = omega (arith, fits, small, short, pos)

module _ (malloc : ℕ → Bool) (s : Stream) (str : List ℕ) (v : IsValid s)
    (room : HasRoom malloc s (length str + 4) true) where
  -- On a valid little-endian stream with room for the string and four bytes, or the memory to
  -- grow, and a spare byte in the mode that adds a terminator, a string written with its size is
  -- read back by a reader that starts where the writer did, and the reader ends where the writer
  -- did.
  pub read_string-write_string :
      (mode : StringInterpretMode)
      → is_sized mode ≡ true
      → s.big_endian ≡ false
      → HasSpare mode s str
      → (t : Stream) × (write_string malloc s str mode true minus_one false false ≡ done t)
        × ReadsString str t.idx (read_string malloc (reader_at t s.idx) mode minus_one false false)
  read_string-write_string mode sized little spare = (
    w.out,
    w.returns,
    record {
      out = _;
      returns =
          (read_string-sized malloc (reader_at w.out s.idx) mode str
            (terminator_bytes mode ++ remaining w.out) false
            (reader_at-IsValid s v (length str + 4) _ _ w) sized place).0;
      ends_at = unfold set_idx in omega (arith, w.moved, length-encode_string_sized mode str sized);
    },
  )
    where
      w :
          Appends s
            (length str + 4)
            (encode_string mode str)
            (write_string malloc s str mode true minus_one false false)
      w = write_string-Appends malloc s str mode v room spare

      place :
          remaining (reader_at w.out s.idx)
          ≡ encode (reader_at w.out s.idx).big_endian dword (length str)
            ++ (str ++ (terminator_bytes mode ++ remaining w.out))
      place =
          remaining-reader_at s v (length str + 4) _ _ w
          ∙ encode_string-sized mode str (remaining w.out) sized
          ∙ ap
              (λ (big : Bool).
                encode big dword (length str)
                ++ (str ++ (terminator_bytes mode ++ remaining w.out)))
              (sym (reader_at-endian s v (length str + 4) _ _ w ∙ little))

  -- On a valid stream with room for the string and four bytes, or the memory to grow, a string
  -- without zeros written with a terminator is read back by a reader that starts where the
  -- writer did, but as the empty string if it has one character; the reader ends at the
  -- terminator, one byte before the writer.
  pub read_string-write_string_null :
      All IsNonzero str
      → (t : Stream) × (write_string malloc s str until_null_term true minus_one false false
          ≡ done t)
        × ReadsString
            (if length str == 1 then [] else str)
            (s.idx + length str)
            (read_string malloc (reader_at t s.idx) until_null_term minus_one false false)
        × (t.idx ≡ s.idx + length str + 1)
  read_string-write_string_null h = (
    w.out,
    w.returns,
    record {
      out = _;
      returns =
          (read_string-until_null malloc (reader_at w.out s.idx)
            (reader_at-IsValid s v (length str + 4) _ _ w) str (remaining w.out) h place).0;
      ends_at = unfold set_idx in refl;
    },
    omega (arith, w.moved, size),
  )
    where
      w :
          Appends s
            (length str + 4)
            (encode_string until_null_term str)
            (write_string malloc s str until_null_term true minus_one false false)
      w = write_string-Appends malloc s str until_null_term v room tt

      size : length (encode_string until_null_term str) ≡ length str + 1
      size = unfold encode_string in length-append str (0 ∷ [])

      place : remaining (reader_at w.out s.idx) ≡ str ++ 0 ∷ remaining w.out
      place =
          remaining-reader_at s v (length str + 4) _ _ w
          ∙ unfold encode_string in append_assoc str (0 ∷ []) (remaining w.out)

  -- On a valid big-endian stream smaller than 2 ^ 24 bytes after the write, with room as for a
  -- little-endian one, a string of 1 to 255 bytes written with its size is not read back: the
  -- reader that starts where the writer did throws that the bytes are too many.
  pub read_string-write_string_big :
      (mode : StringInterpretMode)
      → is_sized mode ≡ true
      → s.big_endian ≡ true
      → HasSpare mode s str
      → 0 < length str
      → length str < 256
      → s.buffer_size + length str + 4 < 2 ^ 24
      → (t : Stream) × (write_string malloc s str mode true minus_one false false ≡ done t)
        × (read_string malloc (reader_at t s.idx) mode minus_one false false
            ≡ threw too_many_bytes (reader_at t s.idx))
  read_string-write_string_big mode sized big spare pos short small = (
    w.out,
    w.returns,
    rw (
      read_string-mode malloc (reader_at w.out s.idx) mode minus_one false false sized,
      safety_check-index (reader_at w.out s.idx) valid some_room,
      swapped_size-throws (reader_at w.out s.idx) valid (length str) _
          (reader_at-endian s v (length str + 4) _ _ w ∙ big) pos short small' place,
    ),
  )
    where
      w :
          Appends s
            (length str + 4)
            (encode_string mode str)
            (write_string malloc s str mode true minus_one false false)
      w = write_string-Appends malloc s str mode v room spare

      valid : IsValid (reader_at w.out s.idx)
      valid = reader_at-IsValid s v (length str + 4) _ _ w

      size : (reader_at w.out s.idx).buffer_size ≡ w.out.buffer_size
      size = unfold init_reader set_idx in refl

      small' : (reader_at w.out s.idx).buffer_size < 2 ^ 24
      small' = omega (arith, size, w.grown, w.at_most)

      some_room : 0 < (reader_at w.out s.idx).buffer_size
      some_room =
          omega (arith, size, w.moved, w.valid.inside, length-encode_string_sized mode str sized)

      place :
          remaining (reader_at w.out s.idx)
          ≡ encode false dword (length str) ++ (str ++ (terminator_bytes mode ++ remaining w.out))
      place =
          remaining-reader_at s v (length str + 4) _ _ w
          ∙ encode_string-sized mode str (remaining w.out) sized
