-- ===== src/Stream/RoundTrip.antt =====
-- A sequence of words, such as the fields of a packet, written and read back.
use h1z1_server.Base.{
  ℕ, ◌+◌, ◌^◌, ◌≤◌, ◌<◌, ◌≡◌, refl, sym, ◌∙◌, ap, Bool, true, false, List, [], ◌∷◌, ◌++◌, map,
  length, drop, arith, Outcome, done, ◌>>=◌, ◌⊎◌, inl, inr, All, length-append,
}
use mathlib.Core.List.{append-nil, append_assoc}
use h1z1_server.Stream.Buffer.{Stream, contents}
use h1z1_server.Stream.Valid.{IsValid, HasRoom}
use h1z1_server.Stream.Appends.{Appends, Appends-trans, written}
use h1z1_server.Stream.ReadBack.{
  reader_at, reader_at-IsValid, reader_at-endian, remaining-reader_at,
}
use h1z1_server.Stream.Consumes.{remaining}
use h1z1_server.Stream.Fields.{
  Width, size_of, encode, length-encode, write_field, read_field, write_field-Appends, Reads,
  read_field-Reads,
}

pub record Field : Type 0 where
  pub width : Width
  pub value : ℕ

abbrev pub FitsWidth : Field → Type 0
FitsWidth f = f.value < 256 ^ size_of f.width

abbrev pub total : List Field → ℕ
total [] = 0
total (f ∷ fs) = size_of f.width + total fs

pub encode_fields : Bool → List Field → List ℕ
encode_fields big [] = []
encode_fields big (f ∷ fs) = encode big f.width f.value ++ encode_fields big fs

pub write_fields : (ℕ → Bool) → Stream → List Field → Outcome Stream Stream
write_fields malloc s [] = done s
write_fields malloc s (f ∷ fs) = do
  t ← write_field malloc s f.width f.value
  write_fields malloc t fs

pub read_fields : Stream → List Width → Outcome Stream (List ℕ × Stream)
read_fields s [] = done ([], s)
read_fields s (w ∷ ws) = do
  r ← read_field s w
  rest ← read_fields r.1 ws
  done (r.0 ∷ rest.0, rest.1)

-- Room for `n` bytes in several writes: free space, or leave to grow and memory for it.
abbrev pub HasRoomFor : (ℕ → Bool) → Stream → ℕ → Type 0
HasRoomFor malloc s n =
    (s.idx + n ≤ s.buffer_size)
    ⊎ ((s.auto_buffer ≡ true)
        × ((m : ℕ) → m < 2 ^ 31 → malloc m ≡ true)
        × (s.buffer_size + n < 2 ^ 31))

room_now :
    (malloc : ℕ → Bool) (s : Stream) (m n : ℕ)
    → HasRoomFor malloc s (m + n)
    → HasRoom malloc s m false
room_now malloc s m n (inl h) = inl (omega arith)
room_now malloc s m n (inr (auto, granted, small)) =
    inr (ground arith, granted (s.buffer_size + m) (omega arith), omega arith)

room_later :
    (malloc : ℕ → Bool) (s : Stream) (m : ℕ) (bytes : List ℕ) (n : ℕ) (r : Outcome Stream Stream)
    (a : Appends s m bytes r)
    → length bytes ≡ m
    → HasRoomFor malloc s (m + n)
    → HasRoomFor malloc a.out n
room_later malloc s m bytes n r a e (inl h) = inl (omega (arith, a.moved, a.grown))
room_later malloc s m bytes n r a e (inr (auto, granted, small)) =
    inr (a.same_auto ∙ auto, granted, omega (arith, a.grown, a.at_most))

length-encode_fields : (big : Bool) (fs : List Field) → length (encode_fields big fs) ≡ total fs
unfolding encode_fields
length-encode_fields big [] = refl
length-encode_fields big (f ∷ fs) = omega (
  arith,
  length-append (encode big f.width f.value) (encode_fields big fs),
  length-encode big f.width f.value,
  length-encode_fields big fs,
)

-- Words in range, written one after the other at the index of a valid stream with room for them
-- all, or with leave and memory to grow, stand one after the other behind the bytes that were in
-- front of the index, each in the byte order of the stream.
write_fields-Appends :
    (malloc : ℕ → Bool) (s : Stream) (fs : List Field)
    → IsValid s
    → All FitsWidth fs
    → HasRoomFor malloc s (total fs)
    → Appends s (total fs) (encode_fields s.big_endian fs) (write_fields malloc s fs)
unfolding write_fields encode_fields
write_fields-Appends malloc s [] v fit room = record {
  out = s;
  returns = refl;
  valid = v;
  appended = sym (append-nil (written s));
  moved = omega arith;
  added = 0;
  at_most = omega arith;
  grown = omega arith;
  behind = ap (drop s.idx) (sym (append-nil (contents s)));
  same_auto = refl;
  same_endian = refl;
}
write_fields-Appends malloc s (f ∷ fs) v fit room = rw first.returns (
    Appends-trans s (size_of f.width) (total fs) _ _ _ first _ v (
      rw first.same_endian at (
        write_fields-Appends malloc first.out fs first.valid fit.1 (
          room_later malloc s (size_of f.width) bytes (total fs) _ first
            (length-encode s.big_endian f.width f.value) room))))
  where
    bytes : List ℕ
    bytes = encode s.big_endian f.width f.value

    first : Appends s (size_of f.width) bytes (write_field malloc s f.width f.value)
    first =
        write_field-Appends malloc s f.width f.value v fit.0
          (room_now malloc s (size_of f.width) (total fs) room)

-- Reading back from where the encodings stand gives the words, in order, and what follows is left.
pub read_fields-encode :
    (s : Stream) (fs : List Field) (rest : List ℕ)
    → IsValid s
    → All FitsWidth fs
    → remaining s ≡ encode_fields s.big_endian fs ++ rest
    → (t : Stream) × (read_fields s (map (λ f. f.width) fs) ≡ done (map (λ f. f.value) fs, t))
      × (remaining t ≡ rest)
unfolding read_fields encode_fields
read_fields-encode s [] rest v fit next = (s, refl, next)
read_fields-encode s (f ∷ fs) rest v fit next =
    let later =
      read_fields-encode first.out fs rest first.valid fit.1
        (first.left ∙ ap (λ (big : Bool). encode_fields big fs ++ rest) (sym first.same_endian)) in
    (later.0, rw (first.returns, later.1), later.2)
  where
    first : Reads s f.value (encode_fields s.big_endian fs ++ rest) (read_field s f.width)
    first = read_field-Reads s f.width f.value (encode_fields s.big_endian fs ++ rest) v fit.0 (
        next
        ∙ append_assoc (encode s.big_endian f.width f.value) (encode_fields s.big_endian fs) rest)

-- On a valid stream, any sequence of bytes, words, dwords and qwords, each in its range, can be
-- written at the index, where there is room or where the stream may grow and memory is granted;
-- a reader over the same block that starts where the writer did then reads the same values, in
-- order and in the byte order of the stream, and stops where the writer stopped.
pub read_fields-write_fields :
    (malloc : ℕ → Bool) (s : Stream) (fs : List Field)
    → IsValid s
    → All FitsWidth fs
    → HasRoomFor malloc s (total fs)
    → (t u : Stream) × (write_fields malloc s fs ≡ done t)
      × (read_fields (reader_at t s.idx) (map (λ f. f.width) fs) ≡ done (map (λ f. f.value) fs, u))
      × (remaining u ≡ remaining t)
read_fields-write_fields malloc s fs v fit room = (w.out, back.0, w.returns, back.1, back.2)
  where
    w : Appends s (total fs) (encode_fields s.big_endian fs) (write_fields malloc s fs)
    w = write_fields-Appends malloc s fs v fit room

    back :
        (u : Stream) × (read_fields (reader_at w.out s.idx) (map (λ f. f.width) fs)
          ≡ done (map (λ f. f.value) fs, u))
        × (remaining u ≡ remaining w.out)
    back =
        read_fields-encode (reader_at w.out s.idx) fs (remaining w.out)
          (reader_at-IsValid s v (total fs) _ _ w) fit
          (remaining-reader_at s v (total fs) _ _ w
            ∙ ap (λ (big : Bool). encode_fields big fs ++ remaining w.out)
                (sym (reader_at-endian s v (total fs) _ _ w)))
