-- ===== src/Stream/TextWrite.antt =====
-- What `WriteString` leaves in the block, mode by mode.
use h1z1_server.Base.{
  ℕ, ◌+◌, ◌^◌, ◌≤◌, ◌<◌, ◌≡◌, ap, Bool, true, false, List, [], ◌∷◌, ◌++◌, length, replicate, arith,
  fault, minus_one, le_bytes, length-le_bytes, length-append, add32, ◌⊎◌, inl, inr, ltb,
}
use h1z1_server.Stream.Buffer.{Stream, contents, auto_buffer}
use h1z1_server.Stream.Valid.{IsValid, HasRoom, Grows, auto_buffer-Grows}
use h1z1_server.Stream.Access.{safety_check-index}
use h1z1_server.Stream.Appends.{Appends, Appends-overwritten}
use h1z1_server.Stream.Text.{
  StringInterpretMode, until_null_term, given_size, given_size_null_term, write_string,
  write_narrow,
}
use h1z1_server.Stream.TextStore.{
  &&-false, encode_string, write_narrow-overwritten, write_narrow-fault,
}

-- The mode that writes a terminator behind a sized string needs a byte more than it asks for.
abbrev pub HasSpare : StringInterpretMode → Stream → List ℕ → Type 0
HasSpare until_null_term s str = Unit
HasSpare given_size s str = Unit
HasSpare given_size_null_term s str = s.idx + (length str + 5) ≤ s.buffer_size

length-encode_string :
    (mode : StringInterpretMode) (s : Stream) (str : List ℕ) (n : ℕ)
    → HasSpare mode s str
    → s.idx + (length str + 4) ≤ n
    → s.buffer_size ≤ n
    → s.idx + length (encode_string mode str) ≤ n
unfolding encode_string
length-encode_string until_null_term s str n spare h k = omega (arith, length-append str (0 ∷ []))
length-encode_string given_size s str n spare h k =
    omega (arith, length-append (le_bytes 4 (length str)) str, length-le_bytes 4 (length str))
length-encode_string given_size_null_term s str n spare h k = omega (
  arith,
  length-append (le_bytes 4 (length str)) (str ++ 0 ∷ []),
  length-append str (0 ∷ []),
  length-le_bytes 4 (length str),
)

module _ (malloc : ℕ → Bool) where
  -- The way to the copies: growing, and the checks, which `autoResize` turns off but for one.
  write_string-Grows :
      (s : Stream) (str : List ℕ) (mode : StringInterpretMode)
      → length str + 4 < 2 ^ 31
      → (g : Grows s (length str + 4) (auto_buffer malloc s (length str + 4) true))
      → write_string malloc s str mode true minus_one false false
        ≡ write_narrow g.out str mode (g.out.idx, true)
  unfolding write_string
  write_string-Grows s str mode small g =
      rw (no_wrap, g.returns, safety_check-index g.out g.valid some_room)
        (rw (&&-false (ltb g.out.buffer_size (add32 g.out.idx (length str)))))
    where
      no_wrap : add32 (length str) 4 ≡ length str + 4
      no_wrap = omega (arith, small)

      some_room : 0 < g.out.buffer_size
      some_room = omega (arith, g.room)

  asked_small : (s : Stream) (n : ℕ) → IsValid s → HasRoom malloc s n true → n < 2 ^ 31
  asked_small s n v room = omega (arith, v.small)

  -- `WriteString` at the index of a valid stream, in any mode, not wide, with room for the
  -- string and four bytes, or the memory to grow, and a spare byte in the mode that adds a
  -- terminator to a sized string, returns a valid stream to which the bytes of the mode are
  -- appended: the size as a little-endian dword where the mode has one, the string, and a zero
  -- where the mode has one.
  pub write_string-Appends :
      (s : Stream) (str : List ℕ) (mode : StringInterpretMode)
      → IsValid s
      → HasRoom malloc s (length str + 4) true
      → HasSpare mode s str
      → Appends s
          (length str + 4)
          (encode_string mode str)
          (write_string malloc s str mode true minus_one false false)
  write_string-Appends s str mode v room spare =
      rw
        (
          write_string-Grows s str mode (asked_small s (length str + 4) v room) g,
          write_narrow-overwritten g.out str mode g.valid (omega (arith, g.room))
              (rw g.same_idx fits),
        )
        (Appends-overwritten s (length str + 4) (encode_string mode str) _ v g fits)
    where
      g : Grows s (length str + 4) (auto_buffer malloc s (length str + 4) true)
      g = auto_buffer-Grows malloc s (length str + 4) true v room

      fits : s.idx + length (encode_string mode str) ≤ g.out.buffer_size
      fits = length-encode_string mode s str g.out.buffer_size spare g.room (
          omega (
            arith,
            v.sized,
            g.valid.sized,
            ap length g.block,
            length-append (contents s) (replicate g.added 0),
          ))

  -- On a valid stream whose index stands at the end of the block, with memory to grow, or with
  -- exactly the string and four bytes of room, `WriteString` with size and terminator, not wide,
  -- writes the terminator past the end of the block.
  pub write_string_overflow :
      (s : Stream) (str : List ℕ)
      → IsValid s
      → ((s.idx ≡ s.buffer_size) × HasRoom malloc s (length str + 4) true)
        ⊎ (s.idx + (length str + 4) ≡ s.buffer_size)
      → write_string malloc s str given_size_null_term true minus_one false false ≡ fault
  write_string_overflow s str v tight =
      rw (write_string-Grows s str given_size_null_term (asked_small s (length str + 4) v room) g)
        (write_narrow-fault g.out str g.valid exact)
    where
      room : HasRoom malloc s (length str + 4) true
      room = elim tight [ inl h ↦ h.1 | inr h ↦ inl (omega arith) ]

      g : Grows s (length str + 4) (auto_buffer malloc s (length str + 4) true)
      g = auto_buffer-Grows malloc s (length str + 4) true v room

      exact : g.out.idx + (length str + 4) ≡ g.out.buffer_size
      exact = elim tight [
        | inl h ↦ omega (arith, h.0, g.same_idx, g.size, g.at_most, g.room)
        | inr h ↦ omega (arith, h, g.same_idx, g.size, g.only_if)
      ]
