-- ===== src/Tests/ObjectTests.antt =====
-- The Lua objects for streams, with numbers and userdata for values.
use Prim.Native.String.{String}
use text.Mathlib.Text.{◌==◌ as str_eq}
use text.Mathlib.TextPositions.{eq_refl}
use h1z1_server.Base.{
  ℕ, ◌≡◌, refl, inr, true, false, Option, none, some, List, [], ◌∷◌, arith, done, codes, byteswap,
  le_bytes, from_le, if◌then◌else◌,
}
use h1z1_server.Stream.Buffer.{Stream}
use h1z1_server.LuaStream.{Arguments}
use h1z1_server.LuaStream.Methods.{call_reader, call_writer}
use h1z1_server.LuaStream.GetBuffer.{write_dword-get_buffer-read_dword}
use h1z1_server.Tests.StreamTests.{grant_all}
use h1z1_server.Tests.TextTests.{little, little-IsValid}

data Argument : Type 0 where
  whole : ℕ → Argument
  characters : List ℕ → Argument
  object : String → ℕ → Argument

abbrev place_of : String → Argument → Option ℕ
place_of name (object other place) = if str_eq name other then some place else none
place_of name _ = none

abbrev whole_of : Argument → Option ℕ
whole_of (whole n) = some n
whole_of _ = none

abbrev characters_of : Argument → Option (List ℕ)
characters_of (characters bs) = some bs
characters_of _ = none

abbrev small_arguments : Arguments Argument ℕ
small_arguments = record {
  check_udata = place_of;
  check_number = whole_of;
  check_bytes = characters_of;
  none_or_nil = λ v. false;
  to_boolean = λ v. true;
  to_string = characters_of;
  int_of = λ n. some n;
  size_of = λ n. some n;
  number = whole;
  bytes = characters;
  userdata = object;
  check_udata-userdata = λ name place. rw (eq_refl name) refl;
}

-- What a little-endian object writes is read back with its bytes reversed.
write_dword-get_buffer-read_dword_example :
    (objects1 objects2 objects3 : List Stream) × (reader : Argument) × (call_writer small_arguments
        grant_all
        (codes "WriteDword")
        (object "ByteStreamWriter" 0 ∷ whole 0x01020304 ∷ [])
        (little ∷ [])
      ≡ some (done (none, objects1)))
    × (call_writer small_arguments grant_all
          (codes "GetBuffer")
          (object "ByteStreamWriter" 0 ∷ [])
          objects1
        ≡ some (done (some reader, objects2)))
    × (call_reader small_arguments grant_all (codes "ReadDword") (reader ∷ []) objects2
        ≡ some (done (some (whole 0x04030201), objects3)))
unfolding byteswap le_bytes from_le
write_dword-get_buffer-read_dword_example =
    write_dword-get_buffer-read_dword grant_all little 0x01020304 little-IsValid (omega arith)
      (inr (refl, refl, omega arith)) refl small_arguments (little ∷ []) 0 (whole 0x01020304)
      0x01020304 refl refl refl
