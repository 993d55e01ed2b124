-- ===== src/Tests/CipherTests.antt =====
-- The cipher over memory of zeros.
use h1z1_server.Base.{
  ℕ, ◌≡◌, refl, List, [], ◌∷◌, ◌++◌, arith, done, le_bytes, length, take, drop, set, replicate,
}
use h1z1_server.Stream.Buffer.{contents}
use h1z1_server.Stream.Valid.{IsValid}
use h1z1_server.Rc4.{Crc4, initialize, encrypt, ready}
use h1z1_server.Rc4.Keystream.{encrypt-encrypt}
use h1z1_server.Rc4.Schedule.{count, ascending, initialize-Rearranged}
use h1z1_server.Converter.{Converter, convert}
use h1z1_server.Converter.Laws.{convert-convert}
use h1z1_server.Tests.StreamTests.{fixed, fixed-IsValid}

abbrev zeros : List ℕ
zeros = replicate 260 0

-- A state that is ready, apart from any key.
abbrev prepared : Crc4
prepared = record { key = zeros; memory = replicate 256 7 ++ 1 ∷ [] }

encrypt-encrypt_example :
    (out : List ℕ) × (used : Crc4) × (encrypt prepared (1 ∷ 2 ∷ 3 ∷ []) 2 ≡ done (out, used))
    × (encrypt prepared out 2 ≡ done (1 ∷ 2 ∷ 3 ∷ [], used))
    × (length out ≡ 3)
    × (drop 2 out ≡ 3 ∷ [])
unfolding ready
encrypt-encrypt_example =
    encrypt-encrypt prepared prepared (1 ∷ 2 ∷ 3 ∷ []) 2 refl (omega arith) (omega arith)

initialize-Rearranged_example :
    (m : List ℕ) × (initialize (record { key = zeros; memory = zeros }) (75 ∷ 101 ∷ []) 2
      ≡ done (record { key = le_bytes 4 2 ++ (75 ∷ 101 ∷ drop 6 zeros); memory = set m 256 1 }))
    × (length m ≡ 260)
    × ((a : ℕ) → count a m ≡ count a (ascending 256 0 ++ drop 256 zeros))
initialize-Rearranged_example =
    initialize-Rearranged (record { key = zeros; memory = zeros }) (75 ∷ 101 ∷ []) 2 refl
      (omega arith) (omega arith) (omega arith)

abbrev packet : Converter
packet = record { buffer = fixed; enc_key = 75 ∷ 101 ∷ []; enc_key_len = 2 }

convert-convert_example :
    (out : Converter) × (convert zeros zeros packet 2 ≡ done out)
    × (convert zeros zeros out 2 ≡ done packet)
    × IsValid out.buffer
    × (take 2 (contents out.buffer) ≡ 2 ∷ 0 ∷ [])
convert-convert_example =
    convert-convert zeros zeros packet 2 fixed-IsValid refl (omega arith) (omega arith)
      (omega arith) (omega arith)
