-- ===== src/Stream/Reader.antt =====
-- `ByteStreamReader` (ServerSystem/Stream/Stream.cpp): raw bytes and words. A method returns its
-- result and the stream after the call.
use h1z1_server.Base.{
  ℕ, Bool, false, List, Option, none, ltb, if◌then◌else◌, add32, from_le, Outcome, done, threw,
  too_many_bytes, ◌>>=◌,
}
use h1z1_server.Stream.Buffer.{Stream, load, safety_check, advance, setup_over}
use h1z1_server.Stream.Writer.{auto_endian2, auto_endian4, auto_endian8}

-- `ByteStreamReader::Initialize`: a reader over a block that another object owns.
unfoldable pub init_reader : Option (List ℕ) → ℕ → Bool → Stream
unfolding setup_over
init_reader block size big = setup_over block size big false

-- The destructor, before that of `ByteStreamBuffer`.
unfoldable pub close_reader : Stream → Stream
close_reader s = record s { buffer = none; buffer_size = 0 }

-- `ReadData` returns a pointer into the buffer, where the caller may read `n` bytes: these are
-- the result here. The word methods have the same checks, and load at once.
unfoldable pub read_data : Stream → ℕ → ℕ → Outcome Stream (List ℕ × Stream)
unfolding safety_check load advance
read_data s n start = do
  at ← safety_check s start
  if ltb s.buffer_size (add32 at.0 n)
      then threw too_many_bytes s
      else do bytes ← load s at.0 n; done (bytes, advance s at.1 (add32 at.0 n))

unfoldable pub read_byte : Stream → ℕ → Outcome Stream (ℕ × Stream)
unfolding read_data from_le
read_byte s start = do r ← read_data s 1 start; done (from_le r.0, r.1)

unfoldable pub read_word : Stream → ℕ → Outcome Stream (ℕ × Stream)
unfolding read_data from_le auto_endian2
read_word s start = do r ← read_data s 2 start; done (auto_endian2 s.big_endian (from_le r.0), r.1)

unfoldable pub read_dword : Stream → ℕ → Outcome Stream (ℕ × Stream)
unfolding read_data from_le auto_endian4
read_dword s start = do r ← read_data s 4 start; done (auto_endian4 s.big_endian (from_le r.0), r.1)

unfoldable pub read_qword : Stream → ℕ → Outcome Stream (ℕ × Stream)
unfolding read_data from_le auto_endian8
read_qword s start = do r ← read_data s 8 start; done (auto_endian8 s.big_endian (from_le r.0), r.1)
