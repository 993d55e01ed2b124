-- ===== src/Stream/Consumes.antt =====
-- A read at the index takes the next bytes of a stream.
use h1z1_server.Base.{
  ◌≢◌, ℕ, ◌+◌, ◌-◌, ◌^◌, ◌≤◌, ◌<◌, ◌≡◌, List, length, take, drop, arith, done, threw,
  too_many_bytes, length-drop, minus_one, drop-add, add32, le→ltb, lt→ltb,
}
use h1z1_server.Stream.Buffer.{Stream, contents, advance}
use h1z1_server.Stream.Reader.{read_data}
use h1z1_server.Stream.Valid.{IsValid}
use h1z1_server.Stream.Access.{safety_check-index, safety_check-start, load-take}

-- The bytes from the index on.
abbrev pub remaining : Stream → List ℕ
remaining s = drop s.idx (contents s)

module _ (s : Stream) (v : IsValid s) where
  pub length-remaining : length (remaining s) ≡ s.buffer_size - s.idx
  length-remaining = omega (arith, length-drop s.idx (contents s), v.sized)

  -- `ReadData` of at least one byte at the index of a valid stream, where as many are left,
  -- gives the next bytes and moves the index behind them.
  pub read_data-take :
      (n : ℕ)
      → 0 < n
      → n ≤ length (remaining s)
      → read_data s n minus_one ≡ done (take n (remaining s), record s { idx = s.idx + n })
  unfolding read_data advance
  read_data-take n pos h = rw (
    safety_check-index s v some_room,
    no_wrap,
    le→ltb s.buffer_size (s.idx + n) fits,
    load-take s v s.idx n some_room fits,
  )
    where
      fits : s.idx + n ≤ s.buffer_size
      fits = omega (arith, length-remaining, v.inside)

      some_room : 0 < s.buffer_size
      some_room = omega (arith, fits)

      no_wrap : add32 s.idx n ≡ s.idx + n
      no_wrap = omega (arith, fits, v.small)

  -- `ReadData` of fewer than 2 ^ 31 bytes at the index of a valid stream that is not empty,
  -- where fewer are left, throws that they are too many, on the stream as it was.
  read_data-short :
      (n : ℕ)
      → n < 2 ^ 31
      → 0 < s.buffer_size
      → length (remaining s) < n
      → read_data s n minus_one ≡ threw too_many_bytes s
  unfolding read_data
  read_data-short n small some_room h =
      rw (safety_check-index s v some_room, no_wrap, lt→ltb s.buffer_size (s.idx + n) beyond)
    where
      beyond : s.buffer_size < s.idx + n
      beyond = omega (arith, length-remaining, v.inside)

      no_wrap : add32 s.idx n ≡ s.idx + n
      no_wrap = omega (arith, small, v.inside, v.small)

  -- The stream behind a successful read.
  pub remaining-advance : (n : ℕ) → remaining (record s { idx = s.idx + n }) ≡ drop n (remaining s)
  remaining-advance n = drop-add s.idx n (contents s)

  pub IsValid-advance : (n : ℕ) → n ≤ length (remaining s) → IsValid (record s { idx = s.idx + n })
  IsValid-advance n h = record {
    sized = v.sized;
    small = v.small;
    inside = omega (arith, length-remaining, v.inside);
  }

  -- `ReadData` at a start that is given leaves the stream as it was.
  pub read_data-start :
      (start n : ℕ)
      → 0 < n
      → start + n ≤ s.buffer_size
      → read_data s n start ≡ done (take n (drop start (contents s)), s)
  unfolding read_data advance
  read_data-start start n pos fits = rw (
    safety_check-start s v start some_room not_index,
    no_wrap,
    le→ltb s.buffer_size (start + n) fits,
    load-take s v start n some_room fits,
  )
    where
      some_room : 0 < s.buffer_size
      some_room = omega (arith, fits)

      not_index : start ≢ minus_one
      not_index = omega (arith, fits, v.small)

      no_wrap : add32 start n ≡ start + n
      no_wrap = omega (arith, fits, v.small)
