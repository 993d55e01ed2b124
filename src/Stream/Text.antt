-- ===== src/Stream/Text.antt =====
-- The string methods `WriteString` and `ReadString` (ServerSystem/Stream/Stream.cpp). A
-- `std::string` is the list of its bytes.
use h1z1_server.Base.{
  ℕ, zero, suc, ◌+◌, ◌*◌, ◌/◌, ◌^◌, ◌-◌, Bool, not, ◌&&◌, List, [], ◌∷◌, ◌++◌, ltb, leb, ◌==◌,
  if◌then◌else◌, length, take, drop, set, get_or, replicate, add32, le_bytes, Outcome, done, threw,
  fault, too_many_bytes, length_error, ◌>>=◌, ◌^◌,
}
use h1z1_server.Stream.Buffer.{Stream, contents, store, load, safety_check, advance, auto_buffer}
use h1z1_server.Stream.Reader.{read_dword}

pub data StringInterpretMode : Type 0 where
  until_null_term given_size given_size_null_term : StringInterpretMode

-- The conversion loop of the wide modes: two bytes for each character into the temporary block,
-- whose pointer moves with the loop. The result is the block and how far the pointer has moved.
unfoldable pub widen : Bool → List ℕ → List ℕ → ℕ → Outcome Stream (List ℕ × ℕ)
widen le [] block off = done (block, off)
widen le (c ∷ cs) block off =
    let rest =
      widen le cs (set (set block off (if le then 0 else c)) (off + 1) (if le then c else 0))
        (off + 2) in
    if leb (off + 2) (length block) then rest else fault

-- `n` bytes from the pointer, which is `off` bytes into its block.
unfoldable pub copy_out : List ℕ → ℕ → ℕ → Outcome Stream (List ℕ)
copy_out block off n =
    if leb (off + n) (length block) then done (take n (drop off block)) else fault

-- `free` of a pointer that does not lead to the start of its block is undefined.
unfoldable pub release : ℕ → Stream → Outcome Stream Stream
release off s = if off == 0 then done s else fault

module _ (malloc : ℕ → Bool) where
  -- The temporary block of `n` bytes; every byte of it is written before it is read.
  unfoldable pub scratch : ℕ → Outcome Stream (List ℕ)
  scratch n = if malloc n then done (replicate n 0) else fault

  -- The three cases with `wideString`, from the index `at` on.
  unfoldable pub write_wide :
      Stream → List ℕ → StringInterpretMode → ℕ × Bool → Bool → Outcome Stream Stream
  unfolding widen copy_out release scratch store advance
  write_wide s str given_size at le = do
    block ← scratch (length str * 2)
    moved ← widen le str block 0
    t ← store s at.0 (le_bytes 4 (length str))
    bytes ← copy_out moved.0 moved.1 (length str * 2)
    u ← store t (at.0 + 4) bytes
    release moved.1 (advance u at.1 (add32 at.0 (length str * 2 + 4)))
  write_wide s str until_null_term at le = do
    block ← scratch (length str * 2 + 2)
    moved ← widen le str block 0
    bytes ← copy_out (set (set moved.0 moved.1 0) (moved.1 + 1) 0) moved.1 (length str * 2 + 2)
    t ← store s at.0 bytes
    release moved.1 (advance t at.1 (add32 at.0 (length str * 2 + 2)))
  -- `*(WORD *)&data = 0` clears half of the pointer itself: the copy reads from nowhere.
  write_wide s str given_size_null_term at le = do
    block ← scratch (length str * 2 + 2)
    moved ← widen le str block 0
    t ← store s at.0 (le_bytes 4 (length str))
    fault

-- The three cases without.
unfoldable pub write_narrow :
    Stream → List ℕ → StringInterpretMode → ℕ × Bool → Outcome Stream Stream
unfolding store advance
write_narrow s str given_size at = do
  t ← store s at.0 (le_bytes 4 (length str))
  u ← store t (at.0 + 4) str
  done (advance u at.1 (add32 at.0 (length str + 4)))
write_narrow s str until_null_term at = do
  t ← store s at.0 (str ++ 0 ∷ [])
  done (advance t at.1 (add32 at.0 (length (str ++ 0 ∷ []))))
write_narrow s str given_size_null_term at = do
  t ← store s at.0 (le_bytes 4 (length (str ++ 0 ∷ []) - 1))
  u ← store t (at.0 + 4) (str ++ 0 ∷ [])
  done (advance u at.1 (add32 at.0 (length (str ++ 0 ∷ []) + 4)))

module _ (malloc : ℕ → Bool) where
  -- `WriteString`.
  unfoldable pub write_string :
      Stream → List ℕ → StringInterpretMode → Bool → ℕ → Bool → Bool → Outcome Stream Stream
  unfolding auto_buffer safety_check write_wide write_narrow
  write_string s str mode auto_resize start wide le = do
    s' ← auto_buffer malloc s (add32 (if wide then length str * 2 else length str) 4) auto_resize
    at ← safety_check s' start
    if ltb s'.buffer_size (add32 at.0 (length str)) && not auto_resize
        then threw too_many_bytes s'
        else if wide
        then write_wide malloc s' str mode at le
        else write_narrow s' str mode at

-- `while (*p && p <= buffer + bufferSize)`: the bytes from `p` on, `pos` behind the start of the
-- buffer. The test reads before it compares.
unfoldable pub scan_bytes : ℕ → ℕ → List ℕ → ℕ → Outcome Stream ℕ
scan_bytes size pos [] count = fault
scan_bytes size pos (b ∷ bs) count =
    let rest = scan_bytes size (pos + 1) bs (count + 1) in
    if b == 0 then done count else if leb pos size then rest else done count

-- The same loop in steps of two bytes.
unfoldable pub scan_units : ℕ → ℕ → List ℕ → ℕ → Outcome Stream ℕ
scan_units size pos [] count = fault
scan_units size pos (b ∷ []) count =
    if b == 0 then done count else if leb pos size then fault else done count
scan_units size pos (b ∷ c ∷ bs) count =
    let rest = scan_units size (pos + 2) bs (count + 1) in
    if b == 0 then done count else if leb pos size then rest else done count

-- Where the scan starts; a start from 2 ^ 31 on stands for a negative `int`.
unfoldable pub scan : Stream → ℕ → Bool → Bool → Outcome Stream ℕ
unfolding scan_bytes scan_units
scan s start wide le =
    let pos = start + (if le then 1 else 0) in
    if ltb start (2 ^ 31)
    then if wide
      then scan_units s.buffer_size pos (drop pos (contents s)) 0
      else scan_bytes s.buffer_size pos (drop pos (contents s)) 0
    else fault

-- The size in front of a string: where the string starts, and its size.
unfoldable pub read_size : Stream → ℕ → Outcome Stream (ℕ × ℕ)
read_size s at = if ltb s.buffer_size (add32 at 4) then threw too_many_bytes s else do
  r ← read_dword s at
  if ltb s.buffer_size (add32 (add32 at 4) r.0)
      then threw too_many_bytes s
      else done (add32 at 4, r.0)

-- The longest `std::string` of the 32-bit library.
abbrev pub string_max_size : ℕ
string_max_size = 0x7fff_ffff

-- The conversion loop from wide to normal, with `n` rounds left: the block, and how far its
-- pointer has moved.
unfoldable pub narrow : Stream → ℕ → Bool → ℕ → ℕ → List ℕ → Outcome Stream (List ℕ × ℕ)
unfolding load
narrow s start le zero i block = done (block, i)
narrow s start le (suc n) i block = do
  b ← load s (if le then add32 (add32 start i) 1 else add32 start i) 1
  narrow s start le n (i + 1) (set block i (get_or b 0 0))

-- What a string with a terminator adds to the index.
abbrev pub terminator : StringInterpretMode → ℕ → ℕ
terminator given_size_null_term n = n
terminator given_size n = 0
terminator until_null_term n = 0

module _ (malloc : ℕ → Bool) where
  -- The end of `ReadString`: the string of `size` bytes at `start`.
  unfoldable pub read_wide :
      Stream → StringInterpretMode → ℕ × Bool → ℕ → ℕ → Bool → Outcome Stream (List ℕ × Stream)
  unfolding narrow copy_out release scratch advance
  read_wide s mode at start size le = do
    block ← scratch malloc (size / 2)
    moved ← narrow s start le (size / 2) 0 block
    str ← copy_out moved.0 moved.1 (size / 2)
    t ← release moved.1 (advance s at.1 (add32 (add32 start size) (terminator mode 2)))
    done (str, t)

unfoldable pub read_narrow :
    Stream → StringInterpretMode → ℕ × Bool → ℕ → ℕ → Outcome Stream (List ℕ × Stream)
unfolding load advance
read_narrow s mode at start size = if ltb string_max_size size then threw length_error s else do
  str ← load s start size
  done (str, advance s at.1 (add32 (add32 start size) (terminator mode 1)))

module _ (malloc : ℕ → Bool) where
  unfoldable pub read_at :
      Stream
      → StringInterpretMode
      → ℕ × Bool
      → ℕ × ℕ
      → Bool
      → Bool
      → Outcome Stream (List ℕ × Stream)
  unfolding read_wide read_narrow
  read_at s mode at sized wide le =
      if wide
      then read_wide malloc s mode at sized.0 sized.1 le
      else read_narrow s mode at sized.0 sized.1

  -- `ReadString`. A string of one character is taken for an empty one.
  unfoldable pub read_string :
      Stream → StringInterpretMode → ℕ → Bool → Bool → Outcome Stream (List ℕ × Stream)
  unfolding safety_check read_size scan read_at
  read_string s given_size start wide le = do
    at ← safety_check s start
    sized ← read_size s at.0
    read_at s given_size at sized wide le
  read_string s given_size_null_term start wide le = do
    at ← safety_check s start
    sized ← read_size s at.0
    read_at s given_size_null_term at sized wide le
  read_string s until_null_term start wide le = do
    at ← safety_check s start
    size ← scan s at.0 wide le
    if size == 1
        then done ([], record s { idx = add32 s.idx 1 })
        else read_at s until_null_term at (at.0, size) wide le
