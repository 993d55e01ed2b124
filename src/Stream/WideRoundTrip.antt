-- ===== src/Stream/WideRoundTrip.antt =====
-- Wide strings written by `WriteWString`, and what `ReadWString` makes of them.
use h1z1_server.Base.{
  ℕ, ◌+◌, ◌*◌, ◌/◌, ◌≤◌, ◌<◌, ◌≡◌, refl, sym, ◌∙◌, ap, Bool, true, false, List, [], ◌∷◌, ◌++◌,
  length, take, drop, arith, done, minus_one, le_bytes, length-append, add32, All, le→ltb, drop-add,
  drop-append, ◌>>=◌,
}
use mathlib.Core.List.{append_assoc}
use h1z1_server.Stream.Buffer.{safety_check, Stream, contents, set_idx, advance}
use h1z1_server.Stream.Valid.{IsValid, HasRoom}
use h1z1_server.Stream.Access.{safety_check-index, load-take}
use h1z1_server.Stream.Appends.{Appends}
use h1z1_server.Stream.Consumes.{remaining, length-remaining}
use h1z1_server.Stream.Fields.{dword, encode, length-encode}
use h1z1_server.Stream.ReadBack.{
  reader_at, reader_at-IsValid, reader_at-endian, remaining-reader_at,
}
use h1z1_server.Stream.Text.{
  read_size, StringInterpretMode, until_null_term, given_size, given_size_null_term, terminator,
}
use h1z1_server.Stream.TextRead.{is_sized, read_size-encode}
use h1z1_server.Stream.WideText.{
  unit_bytes, write_wstring, read_units, read_wstring, wstring_max_size,
}
use h1z1_server.Stream.WideStore.{
  length-unit_bytes, IsUnit, bytes_units-unit_bytes, encode_wstring, HasWideSpare,
  write_wstring-Appends,
}

-- The size of a sized string, and what stands behind it.
wide_tail : StringInterpretMode → List ℕ
wide_tail until_null_term = []
wide_tail given_size = []
wide_tail given_size_null_term = unit_bytes (0 ∷ [])

unit_bytes-append : (xs ys : List ℕ) → unit_bytes (xs ++ ys) ≡ unit_bytes xs ++ unit_bytes ys
unfolding unit_bytes
unit_bytes-append [] ys = refl
unit_bytes-append (x ∷ xs) ys =
    ap (◌++◌ (le_bytes 2 x)) (unit_bytes-append xs ys)
    ∙ sym (append_assoc (le_bytes 2 x) (unit_bytes xs) (unit_bytes ys))

encode_wstring-sized :
    (mode : StringInterpretMode) (str rest : List ℕ)
    → is_sized mode ≡ true
    → encode_wstring mode str ++ rest
      ≡ encode false dword (length str) ++ (unit_bytes str ++ (wide_tail mode ++ rest))
unfolding encode_wstring encode wide_tail
encode_wstring-sized until_null_term str rest e = cc
encode_wstring-sized given_size str rest e =
    append_assoc (le_bytes 4 (length str)) (unit_bytes str) rest
encode_wstring-sized given_size_null_term str rest e =
    append_assoc (le_bytes 4 (length str)) (unit_bytes (str ++ 0 ∷ [])) rest
    ∙ ap (◌++◌ (le_bytes 4 (length str))) (
        ap (λ (b : List ℕ). b ++ rest) (unit_bytes-append str (0 ∷ []))
        ∙ append_assoc (unit_bytes str) (unit_bytes (0 ∷ [])) rest)

read_wstring-mode :
    (s : Stream) (mode : StringInterpretMode) (start : ℕ) (le : Bool)
    → is_sized mode ≡ true
    → read_wstring s mode start le
      ≡ (safety_check s start >>= λ at. read_size s at.0 >>= λ sized. read_units s mode at sized)
unfolding read_wstring
read_wstring-mode s until_null_term start le e = cc
read_wstring-mode s given_size start le e = refl
read_wstring-mode s given_size_null_term start le e = refl

-- A size in units, and the units: half as many of them are read.
read_units-half :
    (s : Stream) (mode : StringInterpretMode) (start : ℕ) (us rest : List ℕ)
    → IsValid s
    → All IsUnit us
    → drop start (contents s) ≡ unit_bytes us ++ rest
    → start + length us * 2 ≤ s.buffer_size
    → 0 < s.buffer_size
    → read_units s mode (s.idx, true) (start, length us)
      ≡ done (take (length us / 2) us, record s { idx = start + length us + terminator mode 1 })
unfolding read_units advance
read_units-half s mode start us rest v units place fits pos =
    rw
      (
        le→ltb wstring_max_size (length us / 2) (omega (arith, fits, v.small)),
        load-take s v start (length us / 2 * 2) pos (omega (arith, fits)),
        place,
        bytes_units-unit_bytes (length us / 2) us rest units (omega arith),
      )
      (ap (λ (i : ℕ). done (take (length us / 2) us, record s { idx = i })) (no_wrap mode))
  where
    no_wrap :
        (mode : StringInterpretMode)
        → add32 (add32 start (length us)) (terminator mode 1)
          ≡ start + length us + terminator mode 1
    no_wrap until_null_term = omega (arith, fits, v.small)
    no_wrap given_size = omega (arith, fits, v.small)
    no_wrap given_size_null_term = omega (arith, fits, pos, v.small)

-- A sized wide string at the index.
read_wstring-half :
    (s : Stream) (mode : StringInterpretMode) (us rest : List ℕ) (le : Bool)
    → IsValid s
    → is_sized mode ≡ true
    → All IsUnit us
    → remaining s ≡ encode s.big_endian dword (length us) ++ (unit_bytes us ++ rest)
    → read_wstring s mode minus_one le
      ≡ done (take (length us / 2) us, record s { idx = s.idx + 4 + length us + terminator mode 1 })
read_wstring-half s mode us rest le v sized units next = rw (
  read_wstring-mode s mode minus_one le sized,
  safety_check-index s v pos,
  read_size-encode s v (length us) (unit_bytes us ++ rest) next
      (omega (arith, length-append (unit_bytes us) rest, length-unit_bytes us)),
  read_units-half s mode (s.idx + 4) us rest v units body fits pos,
)
  where
    body : drop (s.idx + 4) (contents s) ≡ unit_bytes us ++ rest
    body =
        drop-add s.idx 4 (contents s)
        ∙ ap (drop 4) next
        ∙ drop-append 4 (encode s.big_endian dword (length us)) (unit_bytes us ++ rest)
            (sym (length-encode s.big_endian dword (length us)))

    fits : s.idx + 4 + length us * 2 ≤ s.buffer_size
    fits = omega (
      arith,
      ap length next,
      length-append (encode s.big_endian dword (length us)) (unit_bytes us ++ rest),
      length-append (unit_bytes us) rest,
      length-unit_bytes us,
      length-encode s.big_endian dword (length us),
      length-remaining s v,
      v.inside,
    )

    pos : 0 < s.buffer_size
    pos = omega (arith, fits)

module _ (malloc : ℕ → Bool) (s : Stream) (str : List ℕ) (v : IsValid s)
    (room : HasRoom malloc s (length str * 2 + 4) true) where
  -- On a valid little-endian stream with room for the characters in two bytes each and four
  -- bytes, or the memory to grow, and a spare character in the mode that adds a terminator, a
  -- wide string written with its size by `WriteWString` is read back by `ReadWString`, which
  -- starts where the writer did, as its first half only; the index moves by the size word, by a
  -- byte for each character, and by one for a terminator.
  pub read_wstring-write_wstring :
      (mode : StringInterpretMode) (le : Bool)
      → is_sized mode ≡ true
      → s.big_endian ≡ false
      → HasWideSpare mode s str
      → All IsUnit str
      → (t u : Stream) × (write_wstring malloc s str mode true minus_one ≡ done t)
        × (read_wstring (reader_at t s.idx) mode minus_one le ≡ done (take (length str / 2) str, u))
        × (u.idx ≡ s.idx + 4 + length str + terminator mode 1)
  read_wstring-write_wstring mode le sized little spare units = (
    w.out,
    _,
    w.returns,
    read_wstring-half (reader_at w.out s.idx) mode str (wide_tail mode ++ remaining w.out) le
        (reader_at-IsValid s v (length str * 2 + 4) _ _ w) sized units place,
    unfold set_idx in refl,
  )
    where
      w :
          Appends s
            (length str * 2 + 4)
            (encode_wstring mode str)
            (write_wstring malloc s str mode true minus_one)
      w = write_wstring-Appends malloc s str v room mode spare

      place :
          remaining (reader_at w.out s.idx)
          ≡ encode (reader_at w.out s.idx).big_endian dword (length str)
            ++ (unit_bytes str ++ (wide_tail mode ++ remaining w.out))
      place =
          remaining-reader_at s v (length str * 2 + 4) _ _ w
          ∙ encode_wstring-sized mode str (remaining w.out) sized
          ∙ ap
              (λ (big : Bool).
                encode big dword (length str)
                ++ (unit_bytes str ++ (wide_tail mode ++ remaining w.out)))
              (sym (reader_at-endian s v (length str * 2 + 4) _ _ w ∙ little))
