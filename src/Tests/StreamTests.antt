-- ===== src/Tests/StreamTests.antt =====
-- A growing big-endian writer, and the fields of a login reply; a block of eight bytes that does
-- not grow.
use h1z1_server.Base.{
  ◌≡◌, refl, Bool, true, some, none, List, [], ◌∷◌, inr, arith, ℕ, ◌+◌, ◌≤◌, ◌<◌, ◌⊎◌, threw,
  too_many_bytes, false, done, minus_one,
}
use h1z1_server.Stream.Buffer.{Stream}
use h1z1_server.Stream.Writer.{write_word, write_data}
use h1z1_server.Stream.Reader.{read_data}
use h1z1_server.Stream.Valid.{IsValid}
use h1z1_server.Stream.ReadBack.{reader_at}
use h1z1_server.Stream.Consumes.{remaining}
use h1z1_server.Stream.Appends.{Appends, write_data-Appends}
use h1z1_server.Stream.Bounds.{read_data_start-cases}
use h1z1_server.Stream.Fields.{byte, word, dword}
use h1z1_server.Stream.RoundTrip.{Field, write_fields, read_fields, read_fields-write_fields}

abbrev pub grant_all : ℕ → Bool
grant_all n = true

-- `ByteStream.New(0, true, true)`.
abbrev pub writer : Stream
writer = record {
  allocated_inst = true;
  buffer = none;
  buffer_size = 0;
  idx = 0;
  auto_buffer = true;
  big_endian = true;
}

pub writer-IsValid : IsValid writer
writer-IsValid = omega arith

write_word_test :
    write_word grant_all writer 0x0102 minus_one
    ≡ done (record writer { buffer = some (1 ∷ 2 ∷ []); buffer_size = 2; idx = 2 })
unfolding write_word
write_word_test = refl

abbrev reply : List Field
reply =
    record { width = word; value = 2 }
    ∷ record { width = dword; value = 0xdeadbeef }
    ∷ record { width = byte; value = 3 }
    ∷ []

read_fields-write_fields_example :
    (t u : Stream) × (write_fields grant_all writer reply ≡ done t)
    × (read_fields (reader_at t 0) (word ∷ dword ∷ byte ∷ []) ≡ done (2 ∷ 0xdeadbeef ∷ 3 ∷ [], u))
    × (remaining u ≡ remaining t)
read_fields-write_fields_example =
    read_fields-write_fields grant_all writer reply writer-IsValid (omega arith)
      (inr (refl, (λ m h. refl), omega arith))

-- A block that may not grow, with two bytes used.
abbrev pub fixed : Stream
fixed = record {
  allocated_inst = false;
  buffer = some (2 ∷ 0 ∷ 7 ∷ 9 ∷ 0 ∷ 0 ∷ 0 ∷ 0 ∷ []);
  buffer_size = 8;
  idx = 2;
  auto_buffer = false;
  big_endian = false;
}

pub fixed-IsValid : IsValid fixed
fixed-IsValid = omega arith

write_data-Appends_example :
    Appends writer 3 (1 ∷ 2 ∷ 3 ∷ []) (write_data grant_all writer (1 ∷ 2 ∷ 3 ∷ []) 3 minus_one)
write_data-Appends_example =
    write_data-Appends grant_all writer (1 ∷ 2 ∷ 3 ∷ []) writer-IsValid (omega arith)
      (inr (refl, refl, omega arith))

read_data_start-cases_example :
    ((3 + 4 ≤ 8) × (read_data fixed 4 3 ≡ done (9 ∷ 0 ∷ 0 ∷ 0 ∷ [], fixed)))
    ⊎ ((8 < 3 + 4) × (read_data fixed 4 3 ≡ threw too_many_bytes fixed))
read_data_start-cases_example =
    read_data_start-cases fixed fixed-IsValid 3 4 (omega arith) (omega arith) (omega arith)
      (omega arith)
