-- ===== src/Stream/Writer.antt =====
-- `ByteStreamWriter` (ServerSystem/Stream/Stream.cpp): raw bytes and words. A method returns the
-- stream after the call.
use Prim.Native.Nat.{bit_and, bit_or}
use h1z1_server.Base.{
  ℕ, ◌*◌, ◌/◌, ◌^◌, Bool, false, List, ltb, leb, if◌then◌else◌, length, take, add32, le_bytes,
  byteswap, Outcome, threw, fault, too_many_bytes, ◌>>=◌,
}
use h1z1_server.Stream.Buffer.{Stream, store, safety_check, advance, auto_buffer, setup_sized}

-- `AUTO_ENDIAN2`, by masks and shifts.
unfoldable pub auto_endian2 : Bool → ℕ → ℕ
auto_endian2 big v = if big then bit_or (bit_and v 0xff * 2 ^ 8) (bit_and v 0xff00 / 2 ^ 8) else v

-- `AUTO_ENDIAN4` and `AUTO_ENDIAN8`, by the compiler's `_byteswap_ulong` and `_byteswap_uint64`.
unfoldable pub auto_endian4 : Bool → ℕ → ℕ
auto_endian4 big v = if big then byteswap 4 v else v

unfoldable pub auto_endian8 : Bool → ℕ → ℕ
auto_endian8 big v = if big then byteswap 8 v else v

-- A copy from `data`, which holds what follows the pointer.
unfoldable pub store_from : Stream → ℕ → List ℕ → ℕ → Outcome Stream Stream
unfolding store
store_from s start bytes n = if leb n (length bytes) then store s start (take n bytes) else fault

module _ (malloc : ℕ → Bool) where
  -- `ByteStreamWriter(bufferSize, bigEndian, autoBuffer)` and `Initialize`.
  unfoldable pub init_writer : ℕ → Bool → Bool → Outcome Stream Stream
  unfolding setup_sized
  init_writer size big auto = setup_sized malloc size big auto

  -- `WriteData`.
  unfoldable pub write_data : Stream → List ℕ → ℕ → ℕ → Outcome Stream Stream
  unfolding auto_buffer safety_check store_from advance
  write_data s bytes n start = do
    s' ← auto_buffer malloc s n false
    at ← safety_check s' start
    if ltb s'.buffer_size (add32 at.0 n)
        then threw too_many_bytes s'
        else do t ← store_from s' at.0 bytes n; Outcome.done (advance t at.1 (add32 at.0 n))

  -- The words go through their memory: the body is that of `WriteData` on it.
  unfoldable pub write_byte : Stream → ℕ → ℕ → Outcome Stream Stream
  unfolding write_data le_bytes
  write_byte s v start = write_data s (le_bytes 1 v) 1 start

  unfoldable pub write_word : Stream → ℕ → ℕ → Outcome Stream Stream
  unfolding write_data le_bytes auto_endian2
  write_word s v start = write_data s (le_bytes 2 (auto_endian2 s.big_endian v)) 2 start

  unfoldable pub write_dword : Stream → ℕ → ℕ → Outcome Stream Stream
  unfolding write_data le_bytes auto_endian4
  write_dword s v start = write_data s (le_bytes 4 (auto_endian4 s.big_endian v)) 4 start

  unfoldable pub write_qword : Stream → ℕ → ℕ → Outcome Stream Stream
  unfolding write_data le_bytes auto_endian8
  write_qword s v start = write_data s (le_bytes 8 (auto_endian8 s.big_endian v)) 8 start
