-- ===== src/LuaStream/Methods.antt =====
-- The methods of the Lua objects for byte streams, and the functions that make such objects. A
-- method takes its arguments and the objects, and gives the value that it returns, if any.
use Prim.Native.String.{String}
use h1z1_server.Base.{
  ℕ, ◌^◌, ◌%◌, Bool, true, false, Option, none, some, List, [], ◌∷◌, ◌++◌, get_elem?, length, ltb,
  minus_one, add32, if◌then◌else◌, Outcome, done, threw, fault, script_error, ◌>>=◌, codes,
  c_string, same_bytes,
}
use h1z1_server.Stream.Buffer.{Stream, safety_check, auto_buffer}
use h1z1_server.Stream.Text.{write_string, read_string}
use h1z1_server.Stream.Writer.{init_writer, write_byte, write_word, write_dword, write_qword}
use h1z1_server.Stream.Reader.{init_reader, read_byte, read_word, read_dword, read_qword}
use h1z1_server.LuaStream.{Arguments, argument, int_argument, mode_argument, on_object, extend}

-- A writer's method returns nothing to the script.
abbrev pub no_value : {V : Type 0} → Outcome Stream Stream → Outcome Stream (Option V × Stream)
no_value (done s) = done (none, s)
no_value (threw e s) = threw e s
no_value fault = fault

abbrev pub given : {S A : Type 0} → Option A → Outcome S A
given (some a) = done a
given none = fault

-- `ReadString` in a mode that is none: the size of the string is not set.
unfoldable pub read_other : Stream → Outcome Stream (List ℕ × Stream)
unfolding safety_check
read_other s = do at ← safety_check s minus_one; fault

module _ {V D : Type 0} (lua : Arguments V D) (malloc : ℕ → Bool) where
  -- `WriteString` in such a mode: room is made, and nothing is written.
  unfoldable pub write_other : Stream → List ℕ → Outcome Stream Stream
  unfolding auto_buffer safety_check
  write_other s str = do
    s' ← auto_buffer malloc s (add32 (length str) 4) true
    at ← safety_check s' minus_one
    done s'

  -- A reader's method for a word.
  unfoldable pub reader_word :
      (Stream → ℕ → Outcome Stream (ℕ × Stream))
      → List V
      → List Stream
      → Outcome (List Stream) (Option V × List Stream)
  unfolding argument on_object
  reader_word read args objects = do
    place ← argument lua (lua.check_udata "ByteStreamReader") args 1 objects
    on_object objects place (λ s. read s minus_one >>= λ r. done (some (lua.number r.0), r.1))

  unfoldable pub reader_read_string :
      List V → List Stream → Outcome (List Stream) (Option V × List Stream)
  unfolding argument mode_argument on_object read_string read_other
  reader_read_string args objects = do
    place ← argument lua (lua.check_udata "ByteStreamReader") args 1 objects
    mode ← mode_argument lua args 2 objects
    on_object objects place (λ s.
        (elim mode [ none ↦ read_other s | some m ↦ read_string malloc s m minus_one false false ])
        >>= λ r. done (some (lua.bytes r.0), r.1))

  unfoldable pub get_buffer_size :
      String → List V → List Stream → Outcome (List Stream) (Option V × List Stream)
  unfolding argument on_object
  get_buffer_size class args objects = do
    place ← argument lua (lua.check_udata class) args 1 objects
    on_object objects place (λ s. done (some (lua.number s.buffer_size), s))

  -- A writer's method for a word; `word` makes the parameter of an `int`.
  unfoldable pub writer_word :
      (ℕ → ℕ)
      → (Stream → ℕ → ℕ → Outcome Stream Stream)
      → List V
      → List Stream
      → Outcome (List Stream) (Option V × List Stream)
  unfolding argument int_argument on_object
  writer_word word write args objects = do
    value ← int_argument lua args 2 objects
    place ← argument lua (lua.check_udata "ByteStreamWriter") args 1 objects
    on_object objects place (λ s. no_value (write s (word value) minus_one))

  unfoldable pub writer_write_string :
      List V → List Stream → Outcome (List Stream) (Option V × List Stream)
  unfolding argument mode_argument on_object write_string write_other
  writer_write_string args objects = do
    place ← argument lua (lua.check_udata "ByteStreamWriter") args 1 objects
    str ← argument lua lua.check_bytes args 2 objects
    mode ← mode_argument lua args 3 objects
    on_object objects place (λ s. elim mode [
      | none ↦ no_value (write_other s str)
      | some m ↦ no_value (write_string malloc s str m true minus_one false false)
    ])

  -- `PushLuaStream`: a big-endian reader.
  unfoldable pub push_lua_stream : Option (List ℕ) → ℕ → List Stream → V × List Stream
  unfolding init_reader
  push_lua_stream block size objects = (
    lua.userdata "ByteStreamReader" (length objects),
    objects ++ init_reader block size true ∷ [],
  )

  unfoldable pub writer_get_buffer :
      List V → List Stream → Outcome (List Stream) (Option V × List Stream)
  unfolding argument push_lua_stream
  writer_get_buffer args objects = do
    place ← argument lua (lua.check_udata "ByteStreamWriter") args 1 objects
    s ← given (get_elem? objects place)
    let r = push_lua_stream s.buffer s.buffer_size objects in done (some r.0, r.1)

  -- The methods by their names.
  unfoldable pub call_reader :
      List ℕ → List V → List Stream → Option (Outcome (List Stream) (Option V × List Stream))
  unfolding reader_word reader_read_string get_buffer_size read_dword read_word read_byte read_qword
      same_bytes
  call_reader key args objects =
      if same_bytes key (codes "ReadDword")
      then some (reader_word read_dword args objects)
      else if same_bytes key (codes "ReadWord")
      then some (reader_word read_word args objects)
      else if same_bytes key (codes "ReadByte")
      then some (reader_word read_byte args objects)
      else if same_bytes key (codes "ReadQword")
      then some (reader_word read_qword args objects)
      else if same_bytes key (codes "ReadString")
      then some (reader_read_string args objects)
      else if same_bytes key (codes "GetBufferSize")
      then some (get_buffer_size "ByteStreamReader" args objects)
      else none

  unfoldable pub call_writer :
      List ℕ → List V → List Stream → Option (Outcome (List Stream) (Option V × List Stream))
  unfolding writer_word writer_write_string writer_get_buffer get_buffer_size write_dword write_word
      write_byte write_qword same_bytes extend
  call_writer key args objects =
      if same_bytes key (codes "WriteDword")
      then some (writer_word (λ n. n) (write_dword malloc) args objects)
      else if same_bytes key (codes "WriteWord")
      then some (writer_word (λ n. n % 2 ^ 16) (write_word malloc) args objects)
      else if same_bytes key (codes "WriteByte")
      then some (writer_word (λ n. n % 2 ^ 8) (write_byte malloc) args objects)
      else if same_bytes key (codes "WriteQword")
      then some (writer_word extend (write_qword malloc) args objects)
      else if same_bytes key (codes "WriteString")
      then some (writer_write_string args objects)
      else if same_bytes key (codes "GetBuffer")
      then some (writer_get_buffer args objects)
      else if same_bytes key (codes "GetBufferSize")
      then some (get_buffer_size "ByteStreamWriter" args objects)
      else none

  -- `__index`, with the object and the key: the call of the method that it finds. A key that is no
  -- string is a null pointer to `strcmp`.
  unfoldable pub index :
      (List ℕ → List V → List Stream → Option (Outcome (List Stream) (Option V × List Stream)))
      → V
      → List V
      → List Stream
      → Outcome (List Stream) (Option (Outcome (List Stream) (Option V × List Stream)))
  unfolding c_string
  index call key args objects = do
    name ← given (lua.to_string key)
    done (call (c_string name) args objects)

  -- `luaL_opt` with `lua_toboolean`.
  unfoldable pub optional : List V → ℕ → Bool → Bool
  optional args i default = elim (get_elem? args i) [
    | none ↦ default
    | some v ↦ if lua.none_or_nil v then default else lua.to_boolean v
  ]

  -- `ByteStream.New`.
  unfoldable pub byte_stream_new : List V → List Stream → Outcome (List Stream) (V × List Stream)
  unfolding argument optional init_writer
  byte_stream_new args objects = if ltb 3 (length args) then threw script_error objects else (do
    d ← argument lua lua.check_number args 1 objects
    size ← given (lua.size_of d)
    elim (init_writer malloc size (optional args 1 false) (optional args 2 true)) [
      | fault ↦ fault
      | threw e s ↦ threw e objects
      | done s ↦ done (lua.userdata "ByteStreamWriter" (length objects), objects ++ s ∷ [])
    ])

-- `ByteStreamConverter.Convert`, and an assignment to a field of an object, raise an error.
unfoldable pub refuse : {A : Type 0} → List Stream → Outcome (List Stream) A
refuse objects = threw script_error objects
