-- ===== src/Tests/DumpTests.antt =====
-- The hex dump of a small reader.
use h1z1_server.Base.{
  ℕ, ◌≡◌, refl, Bool, true, false, ◌&&◌, some, List, [], ◌∷◌, ◌++◌, codes, ltb, arith, done, fault,
}
use h1z1_server.Stream.Buffer.{Stream}
use h1z1_server.LuaDebug.{hex_dump, dump_row}
use h1z1_server.LuaDebug.Reading.{read_rows}
use h1z1_server.LuaDebug.RoundTrip.{hex_dump-read_rows}
use h1z1_server.Tests.SmallLua.{object}
use h1z1_server.Tests.SmallWorld.{checks}

-- The printable characters of ASCII.
abbrev ascii : ℕ → Bool
ascii c = ltb 31 c && ltb c 127

abbrev packet : Stream
packet = record {
  allocated_inst = false;
  buffer = some (1 ∷ 72 ∷ 255 ∷ []);
  buffer_size = 3;
  idx = 0;
  auto_buffer = false;
  big_endian = true;
}

hex_dump-read_rows_example :
    (text : List ℕ) × (hex_dump checks ascii (object "ByteStreamReader" 0 ∷ []) (packet ∷ [])
      ≡ done (text, fault))
    × (read_rows 3 text ≡ 1 ∷ 72 ∷ 255 ∷ [])
hex_dump-read_rows_example =
    hex_dump-read_rows checks ascii 0 (packet ∷ []) packet (1 ∷ 72 ∷ 255 ∷ []) refl refl refl
      (omega arith, (omega arith, (omega arith, tt))) (omega arith) refl

dump_text :
    hex_dump checks ascii (object "ByteStreamReader" 0 ∷ []) (packet ∷ [])
    ≡ done (codes "000000: 01 48 ff                                         .H." ++ 10 ∷ [], fault)
unfolding hex_dump dump_row
dump_text = refl
