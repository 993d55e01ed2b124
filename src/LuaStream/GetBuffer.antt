-- ===== src/LuaStream/GetBuffer.antt =====
-- A word that a script writes, and reads back from what `GetBuffer` returns.
use h1z1_server.Base.{
  ℕ, ◌<◌, ◌≡◌, refl, sym, ap, ◌∙◌, ◌^◌, Bool, true, false, none, some, List, [], ◌∷◌, ◌++◌,
  get_elem?, set, get_elem?-set, get_elem?-last, length, drop, reverse, arith, if◌then◌else◌,
  Outcome, done, ◌>>=◌, codes, byteswap, le_bytes, le_bytes-byteswap, minus_one,
}
use h1z1_server.Stream.Buffer.{Stream, contents, set_idx}
use h1z1_server.Stream.Writer.{write_dword}
use h1z1_server.Stream.Reader.{init_reader, read_dword}
use h1z1_server.Stream.Valid.{IsValid, HasRoom}
use h1z1_server.Stream.Consumes.{remaining}
use h1z1_server.Stream.Appends.{Appends}
use h1z1_server.Stream.ReadBack.{remaining-reader_at}
use h1z1_server.Stream.Fields.{
  dword, encode, write_field, read_field, Reads, write_field-Appends, read_field-Reads,
  from_le-encode-lt,
}
use mathlib.Core.List.{reverse-reverse}
use h1z1_server.LuaStream.{Arguments, argument, int_argument, on_object}
use h1z1_server.LuaStream.Methods.{
  no_value, reader_word, writer_word, writer_get_buffer, push_lua_stream, call_reader, call_writer,
}

on_object-done :
    {A : Type 0} (objects : List Stream) (place : ℕ) (method : Stream → Outcome Stream (A × Stream))
    (s t : Stream) (a : A)
    → get_elem? objects place ≡ some s
    → method s ≡ done (a, t)
    → on_object objects place method ≡ done (a, set objects place t)
unfolding on_object
on_object-done objects place method s t a e ran = rw (on_object, e, ran)

-- What a big-endian reader makes of a word.
abbrev pub as_big : Bool → ℕ → ℕ
as_big big v = if big then v else byteswap 4 v

encode-as_big : (big : Bool) (v : ℕ) → encode big dword v ≡ encode true dword (as_big big v)
unfolding encode
encode-as_big true v = refl
encode-as_big false v = sym (ap reverse (le_bytes-byteswap 4 v) ∙ reverse-reverse (le_bytes 4 v))

as_big-lt : (big : Bool) (v : ℕ) → v < 256 ^ 4 → as_big big v < 256 ^ 4
unfolding encode byteswap
as_big-lt true v h = h
as_big-lt false v h = from_le-encode-lt true dword v

module _ {V D : Type 0} (lua : Arguments V D) (malloc : ℕ → Bool) (objects : List Stream)
    (place : ℕ) (s : Stream) (here : get_elem? objects place ≡ some s) where
  writer_word-done :
      (write : Stream → ℕ → ℕ → Outcome Stream Stream) (t : Stream) (num : V) (d : D) (v : ℕ)
      → lua.check_number num ≡ some d
      → lua.int_of d ≡ some v
      → write s v minus_one ≡ done t
      → writer_word lua malloc
          (λ n. n)
          write
          (lua.userdata "ByteStreamWriter" place ∷ num ∷ [])
          objects
        ≡ done (none, set objects place t)
  unfolding writer_word argument int_argument
  writer_word-done write t num d v is_number fits ran =
      rw
        (
          writer_word,
          argument,
          int_argument,
          is_number,
          fits,
          lua.check_udata-userdata "ByteStreamWriter" place,
        )
        (on_object-done objects place (λ s. no_value (write s v minus_one)) s t none here
          (ap no_value ran))

  pub reader_word-done :
      (read : Stream → ℕ → Outcome Stream (ℕ × Stream)) (t : Stream) (v : ℕ)
      → read s minus_one ≡ done (v, t)
      → reader_word lua malloc read (lua.userdata "ByteStreamReader" place ∷ []) objects
        ≡ done (some (lua.number v), set objects place t)
  unfolding reader_word argument
  reader_word-done read t v ran =
      rw (reader_word, argument, lua.check_udata-userdata "ByteStreamReader" place)
        (on_object-done objects place _ s t (some (lua.number v)) here
          (ap (λ o. o >>= λ r. done (some (lua.number r.0), r.1)) ran))

  get_buffer-done :
      writer_get_buffer lua malloc (lua.userdata "ByteStreamWriter" place ∷ []) objects
      ≡ done (
        some (lua.userdata "ByteStreamReader" (length objects)),
        objects ++ init_reader s.buffer s.buffer_size true ∷ [],
      )
  unfolding writer_get_buffer argument push_lua_stream
  get_buffer-done =
      rw (writer_get_buffer, argument, lua.check_udata-userdata "ByteStreamWriter" place, here)

-- The word's bytes stand at the start of what the new reader sees.
module _ (malloc : ℕ → Bool) (s : Stream) (v : ℕ) (valid : IsValid s) (fits : v < 2 ^ 32)
    (room : HasRoom malloc s 4 false) (start : s.idx ≡ 0) where
  w : Appends s 4 (encode s.big_endian dword v) (write_field malloc s dword v)
  w = write_field-Appends malloc s dword v valid (omega (arith, fits)) room

  next_word :
      remaining (init_reader w.out.buffer w.out.buffer_size true)
      ≡ encode true dword (as_big s.big_endian v) ++ remaining w.out
  unfolding init_reader set_idx
  next_word =
      ap (λ (i : ℕ). drop i (contents w.out)) (sym start)
      ∙ remaining-reader_at s valid 4 (encode s.big_endian dword v) _ w
      ∙ ap (λ (bs : List ℕ). bs ++ remaining w.out) (encode-as_big s.big_endian v)

  read_back :
      Reads
        (init_reader w.out.buffer w.out.buffer_size true)
        (as_big s.big_endian v)
        (remaining w.out)
        (read_field (init_reader w.out.buffer w.out.buffer_size true) dword)
  unfolding init_reader
  read_back =
      read_field-Reads (init_reader w.out.buffer w.out.buffer_size true) dword
        (as_big s.big_endian v) (remaining w.out)
        (record { sized = w.valid.sized; small = w.valid.small; inside = omega arith })
        (as_big-lt s.big_endian v (omega (arith, fits))) next_word

  -- A script that calls `WriteDword` of a writer object, whose valid stream has its index at the
  -- start and room for four bytes, or leave and memory to grow, with a number that is a word of
  -- 32 bits, then `GetBuffer`, and then `ReadDword` of the reader that this returns, gets the
  -- word back if the writer is big-endian, and the word with its bytes reversed if it is not.
  pub write_dword-get_buffer-read_dword :
      {V D : Type 0} (lua : Arguments V D) (objects : List Stream) (place : ℕ) (num : V) (d : D)
      → get_elem? objects place ≡ some s
      → lua.check_number num ≡ some d
      → lua.int_of d ≡ some v
      → (objects1 objects2 objects3 : List Stream) × (reader : V) × (call_writer lua malloc
            (codes "WriteDword")
            (lua.userdata "ByteStreamWriter" place ∷ num ∷ [])
            objects
          ≡ some (done (none, objects1)))
        × (call_writer lua malloc
              (codes "GetBuffer")
              (lua.userdata "ByteStreamWriter" place ∷ [])
              objects1
            ≡ some (done (some reader, objects2)))
        × (call_reader lua malloc (codes "ReadDword") (reader ∷ []) objects2
            ≡ some (done (some (lua.number (as_big s.big_endian v)), objects3)))
  unfolding call_writer call_reader write_field read_field
  write_dword-get_buffer-read_dword lua objects place num d here is_number is_int = (
    set objects place w.out,
    set objects place w.out ++ init_reader w.out.buffer w.out.buffer_size true ∷ [],
    _,
    lua.userdata "ByteStreamReader" (length (set objects place w.out)),
    ap some (
        writer_word-done lua malloc objects place s here (write_dword malloc) w.out num d v
          is_number is_int w.returns),
    ap some (
        get_buffer-done lua malloc (set objects place w.out) place w.out
          (get_elem?-set objects place s w.out here)),
    ap some (
        reader_word-done lua malloc _ (length (set objects place w.out))
          (init_reader w.out.buffer w.out.buffer_size true)
          (get_elem?-last (set objects place w.out) _) read_dword read_back.out
          (as_big s.big_endian v) read_back.returns),
  )
