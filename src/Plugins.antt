-- ===== src/Plugins.antt =====
-- The plugins of ServerSystem/LuaSystem: `LuaStream`, `LuaNetSocket` and `LuaDebug`, each of which
-- is a `BaseLuaPlugin`, and puts its tables into the globals of the interpreter and takes them
-- out. `given` says that the plugin's pointer to the state is not null.
pub mod Loading
use Prim.Native.String.{String}
use h1z1_server.Base.{ℕ, Bool, true, false, not, if◌then◌else◌}
use h1z1_server.Lua.{Lua}

-- `BaseLuaPlugin::Load`.
unfoldable pub load_base : Bool → Bool
load_base given = if not given then false else true

module _ {V H L D : Type 0} (lua : Lua V H L D) where
  -- A value pushed and set as a field of the table below it.
  unfoldable pub field : String → V → L → L
  field name v l = lua.set_field name (lua.push v l)

  -- `LuaStream::Load`, table by table.
  unfoldable pub types_table : L → L
  unfolding field
  types_table l =
      let t = field "Dword" (lua.integer 0) (lua.new_table l) in
      let t = field "Qword" (lua.integer 1) t in
      let t = field "Word" (lua.integer 2) t in
      let t = field "Byte" (lua.integer 3) t in
      lua.set_global "Types" (field "String" (lua.integer 4) t)

  unfoldable pub interpret_mode_table : L → L
  unfolding field
  interpret_mode_table l =
      let t = field "GivenSize" (lua.integer 1) (lua.new_table l) in
      let t = field "GivenSizeNullTerm" (lua.integer 2) t in
      lua.set_global "InterpretMode" (field "UntilNullTerm" (lua.integer 0) t)

  -- A table of one function.
  unfoldable pub function_table : String → String → String → L → L
  unfolding field
  function_table table name function l =
      lua.set_global table (field name (lua.c_function function) (lua.new_table l))

  unfoldable pub load_stream : Bool → L → Bool × L
  unfolding types_table interpret_mode_table function_table
  load_stream given l = if not given then (false, l) else (
    true,
    function_table "ByteStreamConverter" "Convert" "ByteStreamConverter_Convert"
        (function_table "ByteStream" "New" "ByteStream_New" (interpret_mode_table (types_table l))),
  )

  unfoldable pub load_net_socket : Bool → L → Bool × L
  unfolding function_table
  load_net_socket given l =
      if not given then (false, l) else (true, function_table "NetSocket" "New" "NetSocket_New" l)

  unfoldable pub load_debug : Bool → L → Bool × L
  unfolding function_table
  load_debug given l =
      if not given then (false, l) else (true, function_table "Debug" "HexDump" "Debug_HexDump" l)

  -- A global set to nil.
  unfoldable pub clear_global : String → L → L
  clear_global name l = lua.set_global name (lua.push lua.nil l)

  unfoldable pub unload_stream : L → L
  unfolding clear_global
  unload_stream l =
      clear_global "ByteStreamConverter"
        (clear_global "ByteStream" (clear_global "InterpretMode" (clear_global "Types" l)))

  unfoldable pub unload_net_socket : L → L
  unfolding clear_global
  unload_net_socket l = clear_global "NetSocket" l

  unfoldable pub unload_debug : L → L
  unfolding clear_global
  unload_debug l = clear_global "Debug" l
