-- ===== src/Stream/TextRead.antt =====
-- What `ReadString` returns, for the forms in which a string stands in the block.
use h1z1_server.Base.{
  ℕ, ◌+◌, ◌≤◌, ◌<◌, ◌≡◌, refl, sym, ◌∙◌, ap, Bool, true, false, List, ◌++◌, length, take, drop,
  arith, done, minus_one, from_le, length-append, drop-add, add32, le→ltb, ◌>>=◌, take-append,
  drop-append,
}
use h1z1_server.Stream.Buffer.{Stream, contents, advance, safety_check}
use h1z1_server.Stream.Reader.{read_dword}
use h1z1_server.Stream.Valid.{IsValid}
use h1z1_server.Stream.Access.{safety_check-index, load-take}
use h1z1_server.Stream.Consumes.{remaining, length-remaining, read_data-start}
use h1z1_server.Stream.Fields.{dword, encode, length-encode, auto_endian4-encode}
use h1z1_server.Stream.Writer.{auto_endian4}
use h1z1_server.Stream.Text.{
  StringInterpretMode, until_null_term, given_size, given_size_null_term, read_string, read_size,
  read_narrow, terminator, read_at, string_max_size,
}

module _ (s : Stream) (v : IsValid s) where
  pub read_dword-start :
      (start : ℕ)
      → start + 4 ≤ s.buffer_size
      → read_dword s start
        ≡ done (auto_endian4 s.big_endian (from_le (take 4 (drop start (contents s)))), s)
  unfolding read_dword
  read_dword-start start fits = rw (read_data-start s v start 4 (omega arith) fits)

  -- A size word at the index, in the byte order of the stream.
  pub read_size-encode :
      (n : ℕ) (rest : List ℕ)
      → remaining s ≡ encode s.big_endian dword n ++ rest
      → n ≤ length rest
      → read_size s s.idx ≡ done (s.idx + 4, n)
  unfolding read_size
  read_size-encode n rest next enough = rw (
    no_wrap,
    le→ltb s.buffer_size (s.idx + 4) fits,
    read_dword-start s.idx fits,
    decoded,
    no_wrap',
    le→ltb s.buffer_size (s.idx + 4 + n) fits',
  )
    where
      size : length (remaining s) ≡ 4 + length rest
      size = omega (
        arith,
        ap length next,
        length-append (encode s.big_endian dword n) rest,
        length-encode s.big_endian dword n,
      )

      fits' : s.idx + 4 + n ≤ s.buffer_size
      fits' = omega (arith, size, length-remaining s v, v.inside)

      fits : s.idx + 4 ≤ s.buffer_size
      fits = omega (arith, fits')

      no_wrap : add32 s.idx 4 ≡ s.idx + 4
      no_wrap = omega (arith, fits, v.small)

      no_wrap' : add32 (s.idx + 4) n ≡ s.idx + 4 + n
      no_wrap' = omega (arith, fits', v.small)

      decoded : auto_endian4 s.big_endian (from_le (take 4 (remaining s))) ≡ n
      decoded =
          ap (λ (bs : List ℕ). auto_endian4 s.big_endian (from_le (take 4 bs))) next
          ∙ ap (λ (bs : List ℕ). auto_endian4 s.big_endian (from_le bs))
              (take-append 4 (encode s.big_endian dword n) rest
                (sym (length-encode s.big_endian dword n)))
          ∙ auto_endian4-encode s.big_endian n (omega (arith, fits', v.small))

  -- The characters, without a fault where they lie within the block.
  pub read_narrow-take :
      (mode : StringInterpretMode) (start n : ℕ)
      → 0 < s.buffer_size
      → start + n ≤ s.buffer_size
      → read_narrow s mode (s.idx, true) start n
        ≡ done (take n (drop start (contents s)), record s { idx = start + n + terminator mode 1 })
  unfolding read_narrow advance
  read_narrow-take mode start n pos fits =
      rw (le→ltb string_max_size n (omega (arith, fits, v.small)), load-take s v start n pos fits)
        (ap (λ (i : ℕ). done (take n (drop start (contents s)), record s { idx = i }))
          (no_wrap mode))
    where
      no_wrap :
          (mode : StringInterpretMode)
          → add32 (add32 start n) (terminator mode 1) ≡ start + n + terminator mode 1
      no_wrap until_null_term = omega (arith, fits, v.small)
      no_wrap given_size = omega (arith, fits, v.small)
      no_wrap given_size_null_term = omega (arith, fits, v.small)

  -- Where a sized string lies.
  pub sized_place :
      (str rest : List ℕ)
      → remaining s ≡ encode s.big_endian dword (length str) ++ (str ++ rest)
      → (s.idx + 4 + length str + length rest ≡ s.buffer_size)
        × (take (length str) (drop (s.idx + 4) (contents s)) ≡ str)
        × (drop (s.idx + 4 + length str) (contents s) ≡ rest)
  sized_place str rest next = (
    omega (
      arith,
      ap length next,
      length-append (encode s.big_endian dword (length str)) (str ++ rest),
      length-append str rest,
      length-encode s.big_endian dword (length str),
      length-remaining s v,
      v.inside,
    ),
    ap (take (length str)) body ∙ take-append (length str) str rest refl,
    drop-add (s.idx + 4) (length str) (contents s)
        ∙ ap (drop (length str)) body
        ∙ drop-append (length str) str rest refl,
  )
    where
      body : drop (s.idx + 4) (contents s) ≡ str ++ rest
      body =
          drop-add s.idx 4 (contents s)
          ∙ ap (drop 4) next
          ∙ drop-append 4 (encode s.big_endian dword (length str)) (str ++ rest)
              (sym (length-encode s.big_endian dword (length str)))

-- The two modes with a size in front have one body.
abbrev pub is_sized : StringInterpretMode → Bool
is_sized until_null_term = false
is_sized given_size = true
is_sized given_size_null_term = true

pub read_string-mode :
    (malloc : ℕ → Bool) (s : Stream) (mode : StringInterpretMode) (start : ℕ) (wide le : Bool)
    → is_sized mode ≡ true
    → read_string malloc s mode start wide le ≡ (
        safety_check s start >>= λ at.
        read_size s at.0 >>= λ sized. read_at malloc s mode at sized wide le)
unfolding read_string
read_string-mode malloc s until_null_term start wide le e = cc
read_string-mode malloc s given_size start wide le e = refl
read_string-mode malloc s given_size_null_term start wide le e = refl

-- On a valid stream where a size word in the byte order of the stream stands at the index, and a
-- string of that size behind it, `ReadString` in a mode with a size returns the string, and the
-- index moves behind it, and in the mode with a terminator one byte further.
pub read_string-sized :
    (malloc : ℕ → Bool) (s : Stream) (mode : StringInterpretMode) (str rest : List ℕ) (le : Bool)
    → IsValid s
    → is_sized mode ≡ true
    → remaining s ≡ encode s.big_endian dword (length str) ++ (str ++ rest)
    → (read_string malloc s mode minus_one false le
        ≡ done (str, record s { idx = s.idx + 4 + length str + terminator mode 1 }))
      × (drop (s.idx + 4 + length str) (contents s) ≡ rest)
unfolding read_at
read_string-sized malloc s mode str rest le v e next = (
  rw (
    read_string-mode malloc s mode minus_one false le e,
    safety_check-index s v pos,
    read_size-encode s v (length str) (str ++ rest) next (omega (arith, length-append str rest)),
    read_narrow-take s v mode (s.idx + 4) (length str) pos fits,
    place.1,
  ),
  place.2,
)
  where
    place :
        (s.idx + 4 + length str + length rest ≡ s.buffer_size)
        × (take (length str) (drop (s.idx + 4) (contents s)) ≡ str)
        × (drop (s.idx + 4 + length str) (contents s) ≡ rest)
    place = sized_place s v str rest next

    fits : s.idx + 4 + length str ≤ s.buffer_size
    fits = omega (arith, place.0)

    pos : 0 < s.buffer_size
    pos = omega (arith, place.0)
