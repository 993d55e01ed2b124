-- ===== src/Stream/Bounds.antt =====
-- Which accesses stay inside the block, and which get past the checks of the code.
use h1z1_server.Base.{
  ℕ, ◌+◌, ◌^◌, ◌≤◌, ◌<◌, ◌≡◌, ◌≢◌, Bool, true, false, List, length, take, drop, arith, done, threw,
  fault, minus_one, add32, too_many_bytes, lt→ltb, ltb, ◌>>=◌, Bool-cases, inl, inr, ◌⊎◌, from_le,
}
use h1z1_server.Stream.Buffer.{Stream, contents, auto_buffer}
use h1z1_server.Stream.Reader.{read_data}
use h1z1_server.Stream.Writer.{auto_endian4, write_data}
use h1z1_server.Stream.Valid.{IsValid}
use h1z1_server.Stream.Access.{safety_check-index, safety_check-start, load-take}
use h1z1_server.Stream.Consumes.{remaining, read_data-start}
use h1z1_server.Stream.Text.{
  StringInterpretMode, read_string, read_size, read_narrow, read_at, string_max_size,
}
use h1z1_server.Stream.TextRead.{is_sized, read_string-mode, read_dword-start}

module _ (s : Stream) (v : IsValid s) where
  -- On a valid stream that is not empty, `ReadData` of at least one byte and fewer than 2 ^ 31,
  -- at a given start that is not negative, returns the bytes there and leaves the stream as it
  -- was if they lie in the block, and else throws that they are too many, on the stream as it
  -- was.
  pub read_data_start-cases :
      (start n : ℕ)
      → start < 2 ^ 31
      → 0 < n
      → n < 2 ^ 31
      → 0 < s.buffer_size
      → ((start + n ≤ s.buffer_size)
          × (read_data s n start ≡ done (take n (drop start (contents s)), s)))
        ⊎ ((s.buffer_size < start + n) × (read_data s n start ≡ threw too_many_bytes s))
  read_data_start-cases start n small pos bound some_room =
      elim (Bool-cases (ltb s.buffer_size (start + n))) [
        | inl short ↦ inr (ground arith, throws (ground arith))
        | inr fits ↦ inl (ground arith, read_data-start s v start n pos (ground arith))
      ]
    where
      no_wrap : add32 start n ≡ start + n
      no_wrap = omega (arith, small, bound)

      throws : s.buffer_size < start + n → read_data s n start ≡ threw too_many_bytes s
      throws h =
          unfold read_data in
          rw (
            safety_check-start s v start some_room (omega (arith, small)),
            no_wrap,
            lt→ltb s.buffer_size (start + n) h,
          )

  read_narrow-ne-fault :
      (mode : StringInterpretMode) (at : ℕ × Bool) (n : ℕ)
      → 0 < s.buffer_size
      → at.0 + 4 ≤ s.buffer_size
      → add32 (at.0 + 4) n ≤ s.buffer_size
      → read_narrow s mode at (at.0 + 4) n ≢ fault
  unfolding read_narrow
  read_narrow-ne-fault mode at n pos head passes h = elim (Bool-cases (ltb string_max_size n)) [
    | inl long ↦ cc (rw long at h)
    | inr short ↦ cc (rw (short, load-take s v (at.0 + 4) n pos (fits short)) at h)
  ]
    where
      fits : ltb string_max_size n ≡ false → at.0 + 4 + n ≤ s.buffer_size
      fits e = ground (arith, v.small)

  -- A size at the index is refused, or the checks hold for it.
  read_size-cases :
      (read_size s s.idx ≡ threw too_many_bytes s)
      ⊎ ((n : ℕ) × (s.idx + 4 ≤ s.buffer_size)
          × (add32 (s.idx + 4) n ≤ s.buffer_size)
          × (read_size s s.idx ≡ done (s.idx + 4, n)))
  unfolding read_size
  read_size-cases = elim (Bool-cases (ltb s.buffer_size (s.idx + 4))) [
    | inl short ↦ inl (rw (no_wrap, short))
    | inr fits ↦ elim (Bool-cases (ltb s.buffer_size (add32 (s.idx + 4) size))) [
      | inl refused ↦ inl (rw (no_wrap, fits, read_dword-start s v s.idx (ground arith), refused))
      | inr passes ↦ inr (
        size,
        ground arith,
        ground arith,
        rw (no_wrap, fits, read_dword-start s v s.idx (ground arith), passes),
      )
    ]
  ]
    where
      no_wrap : add32 s.idx 4 ≡ s.idx + 4
      no_wrap = omega (arith, v.inside, v.small)

      size : ℕ
      size = auto_endian4 s.big_endian (from_le (take 4 (remaining s)))

  -- On a valid stream that is not empty, `ReadString` at the index in a mode with a size, not
  -- wide, never reads outside the block, whatever the block holds.
  pub read_string-sized-ne-fault :
      (malloc : ℕ → Bool) (mode : StringInterpretMode) (le : Bool)
      → is_sized mode ≡ true
      → 0 < s.buffer_size
      → read_string malloc s mode minus_one false le ≢ fault
  unfolding read_at
  read_string-sized-ne-fault malloc mode le e pos h = elim read_size-cases [
    | inl refused ↦ cc (rw (enters, refused) at h)
    | inr (n, head, passes, sized) ↦
        read_narrow-ne-fault mode (s.idx, true) n pos head passes (rw (enters, sized) at h)
  ]
    where
      enters :
          read_string malloc s mode minus_one false le
          ≡ (read_size s s.idx >>= λ sized. read_at malloc s mode (s.idx, true) sized false le)
      enters = rw (read_string-mode malloc s mode minus_one false le e, safety_check-index s v pos)

-- On a valid stream that is not empty and may not grow, `WriteData` at the index of fewer than 2
-- ^ 31 bytes, but more than there is room for, throws that they are too many, on the stream as
-- it was.
write_data-full :
    (malloc : ℕ → Bool) (s : Stream) (bytes : List ℕ)
    → IsValid s
    → s.auto_buffer ≡ false
    → 0 < s.buffer_size
    → length bytes < 2 ^ 31
    → s.buffer_size < s.idx + length bytes
    → write_data malloc s bytes (length bytes) minus_one ≡ threw too_many_bytes s
unfolding write_data
write_data-full malloc s bytes v fixed pos bound h =
    rw (stays, safety_check-index s v pos, no_wrap, lt→ltb s.buffer_size (s.idx + length bytes) h)
  where
    stays : auto_buffer malloc s (length bytes) false ≡ done s
    stays = unfold auto_buffer in rw fixed

    no_wrap : add32 s.idx (length bytes) ≡ s.idx + length bytes
    no_wrap = omega (arith, v.inside, v.small, bound)
