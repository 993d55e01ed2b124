-- ===== src/Tests/TextTests.antt =====
-- Strings on small streams.
use h1z1_server.Base.{
  ℕ, ◌≡◌, ◌≢◌, refl, true, false, some, List, [], ◌∷◌, inr, arith, done, threw, fault, minus_one,
  too_many_bytes, drop,
}
use h1z1_server.Stream.Buffer.{Stream, contents}
use h1z1_server.Stream.Valid.{IsValid}
use h1z1_server.Stream.ReadBack.{reader_at}
use h1z1_server.Stream.Text.{
  given_size, given_size_null_term, until_null_term, write_string, read_string,
}
use h1z1_server.Stream.TextWrite.{write_string_overflow}
use h1z1_server.Stream.WideWrite.{write_string-wide-ne-done}
use h1z1_server.Stream.TextScan.{read_string-until_null}
use h1z1_server.Stream.Bounds.{read_string-sized-ne-fault}
use h1z1_server.Stream.TextRoundTrip.{
  read_string-write_string_null, ReadsString, read_string-write_string,
  read_string-write_string_big,
}
use h1z1_server.Stream.WideText.{write_wstring, read_wstring}
use h1z1_server.Stream.WideRoundTrip.{read_wstring-write_wstring}
use h1z1_server.Tests.StreamTests.{grant_all, writer, writer-IsValid, fixed, fixed-IsValid}

-- A little-endian writer that grows.
abbrev pub little : Stream
little = record writer { big_endian = false }

pub little-IsValid : IsValid little
little-IsValid = omega arith

-- "AB".
abbrev ab : List ℕ
ab = 65 ∷ 66 ∷ []

read_string-write_string_example :
    (t : Stream) × (write_string grant_all little ab given_size true minus_one false false ≡ done t)
    × ReadsString ab t.idx (read_string grant_all (reader_at t 0) given_size minus_one false false)
read_string-write_string_example =
    read_string-write_string grant_all little ab little-IsValid (inr (refl, refl, omega arith))
      given_size refl refl tt

read_string-write_string_null_example :
    (t : Stream) × (write_string grant_all little ab until_null_term true minus_one false false
      ≡ done t)
    × ReadsString ab 2 (read_string grant_all (reader_at t 0) until_null_term minus_one false false)
    × (t.idx ≡ 3)
read_string-write_string_null_example =
    read_string-write_string_null grant_all little ab little-IsValid (inr (refl, refl, omega arith))
      (omega arith)

read_string-write_string_big_example :
    (t : Stream) × (write_string grant_all writer ab given_size true minus_one false false ≡ done t)
    × (read_string grant_all (reader_at t 0) given_size minus_one false false
        ≡ threw too_many_bytes (reader_at t 0))
read_string-write_string_big_example =
    read_string-write_string_big grant_all writer ab writer-IsValid (inr (refl, refl, omega arith))
      given_size refl refl tt (omega arith) (omega arith) (omega arith)

write_string_overflow_example :
    write_string grant_all fixed ab given_size_null_term true minus_one false false ≡ fault
write_string_overflow_example =
    write_string_overflow grant_all fixed ab fixed-IsValid (inr (omega arith))

write_string-wide-ne-done_example :
    write_string grant_all little ab until_null_term true minus_one true false ≢ done little
write_string-wide-ne-done_example =
    write_string-wide-ne-done grant_all little ab until_null_term true minus_one false little
      (omega arith)

-- "AB" behind its size.
abbrev sized_text : Stream
sized_text = record fixed { buffer = some (2 ∷ 0 ∷ 0 ∷ 0 ∷ 65 ∷ 66 ∷ 0 ∷ 1 ∷ []); idx = 0 }

sized_text-IsValid : IsValid sized_text
sized_text-IsValid = omega arith

read_string-sized-ne-fault_example :
    read_string grant_all sized_text given_size minus_one false false ≢ fault
read_string-sized-ne-fault_example =
    read_string-sized-ne-fault sized_text sized_text-IsValid grant_all given_size false refl
      (omega arith)

-- A string of one character.
read_string-until_null_example :
    (read_string grant_all (record sized_text { idx = 5 }) until_null_term minus_one false false
      ≡ done ([], record sized_text { idx = 6 }))
    × (drop 6 (contents sized_text) ≡ 0 ∷ 1 ∷ [])
read_string-until_null_example =
    read_string-until_null grant_all (record sized_text { idx = 5 }) (omega arith) (66 ∷ [])
      (1 ∷ []) (omega arith) refl

read_wstring-write_wstring_example :
    (t u : Stream) × (write_wstring grant_all little ab given_size true minus_one ≡ done t)
    × (read_wstring (reader_at t 0) given_size minus_one false ≡ done (65 ∷ [], u))
    × (u.idx ≡ 6)
read_wstring-write_wstring_example =
    read_wstring-write_wstring grant_all little ab little-IsValid (inr (refl, refl, omega arith))
      given_size false refl refl tt (omega arith, (omega arith, tt))
