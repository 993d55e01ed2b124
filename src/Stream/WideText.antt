-- ===== src/Stream/WideText.antt =====
-- The string methods `WriteWString` and `ReadWString` (ServerSystem/Stream/Stream.cpp). A
-- `std::wstring` is the list of its units, numbers below 2 ^ 16.
use h1z1_server.Base.{
  ℕ, ◌+◌, ◌*◌, ◌/◌, ◌-◌, Bool, not, ◌&&◌, List, [], ◌∷◌, ◌++◌, ltb, ◌==◌, if◌then◌else◌, length,
  add32, le_bytes, Outcome, done, threw, too_many_bytes, length_error, ◌>>=◌,
}
use h1z1_server.Stream.Buffer.{Stream, store, load, safety_check, advance, auto_buffer}
use h1z1_server.Stream.Text.{
  StringInterpretMode, until_null_term, given_size, given_size_null_term, read_size, scan,
  terminator,
}

-- The memory of a string: two bytes for each unit.
unfoldable pub unit_bytes : List ℕ → List ℕ
unit_bytes [] = []
unit_bytes (u ∷ us) = le_bytes 2 u ++ unit_bytes us

-- Memory read as units.
unfoldable pub bytes_units : List ℕ → List ℕ
bytes_units [] = []
bytes_units (b ∷ []) = []
bytes_units (b ∷ c ∷ bs) = (b + c * 256) ∷ bytes_units bs

-- The three cases of `WriteWString`.
unfoldable pub write_units :
    Stream → List ℕ → StringInterpretMode → ℕ × Bool → Outcome Stream Stream
unfolding store advance
write_units s str given_size at = do
  t ← store s at.0 (le_bytes 4 (length str))
  u ← store t (at.0 + 4) (unit_bytes str)
  done (advance u at.1 (add32 at.0 (length str * 2 + 4)))
write_units s str until_null_term at = do
  t ← store s at.0 (unit_bytes (str ++ 0 ∷ []))
  done (advance t at.1 (add32 at.0 (length (str ++ 0 ∷ []) * 2)))
write_units s str given_size_null_term at = do
  t ← store s at.0 (le_bytes 4 (length (str ++ 0 ∷ []) - 1))
  u ← store t (at.0 + 4) (unit_bytes (str ++ 0 ∷ []))
  done (advance u at.1 (add32 at.0 (length (str ++ 0 ∷ []) * 2 + 4)))

module _ (malloc : ℕ → Bool) where
  -- `WriteWString`.
  unfoldable pub write_wstring :
      Stream → List ℕ → StringInterpretMode → Bool → ℕ → Outcome Stream Stream
  unfolding auto_buffer safety_check write_units
  write_wstring s str mode auto_resize start = do
    s' ← auto_buffer malloc s (add32 (length str * 2) 4) auto_resize
    at ← safety_check s' start
    if ltb s'.buffer_size (add32 (add32 at.0 (length str)) 4) && not auto_resize
        then threw too_many_bytes s'
        else write_units s' str mode at

-- The longest `std::wstring` of the 32-bit library.
abbrev pub wstring_max_size : ℕ
wstring_max_size = 0x7fff_fffe

-- The end of `ReadWString`: half of `size` is the number of units.
unfoldable pub read_units :
    Stream → StringInterpretMode → ℕ × Bool → ℕ × ℕ → Outcome Stream (List ℕ × Stream)
unfolding load advance
read_units s mode at sized = if ltb wstring_max_size (sized.1 / 2) then threw length_error s else do
  bytes ← load s sized.0 (sized.1 / 2 * 2)
  done (bytes_units bytes, advance s at.1 (add32 (add32 sized.0 sized.1) (terminator mode 1)))

-- `ReadWString`.
unfoldable pub read_wstring :
    Stream → StringInterpretMode → ℕ → Bool → Outcome Stream (List ℕ × Stream)
unfolding safety_check read_size scan read_units
read_wstring s given_size start le = do
  at ← safety_check s start
  sized ← read_size s at.0
  read_units s given_size at sized
read_wstring s given_size_null_term start le = do
  at ← safety_check s start
  sized ← read_size s at.0
  read_units s given_size_null_term at sized
read_wstring s until_null_term start le = do
  at ← safety_check s start
  size ← scan s at.0 Bool.true le
  if size == 1
      then done ([], record s { idx = add32 s.idx 1 })
      else read_units s until_null_term at (at.0, size)
