-- ===== src/Plugins/Loading.antt =====
-- What loading and unloading a plugin leaves on the stack and in the globals.
use Prim.Native.String.{String}
use text.Mathlib.Text.{◌==◌ as str_eq}
use h1z1_server.Base.{true, false, ◌≡◌, refl, ◌∙◌, ap, List, ◌∷◌}
use h1z1_server.Lua.{Lua}
use h1z1_server.Plugins.{
  field, types_table, interpret_mode_table, function_table, load_stream, load_net_socket,
  load_debug, clear_global, unload_stream,
}

module _ {V H L D : Type 0} (lua : Lua V H L D) where
  stack-field :
      (name : String) (v t : V) (vs : List V) (l : L)
      → lua.stack l ≡ t ∷ vs
      → lua.stack (field lua name v l) ≡ t ∷ vs
  unfolding field
  stack-field name v t vs l e =
      lua.stack-set_field name (lua.push v l) v t vs (lua.stack-push v l ∙ ap (◌∷◌ v) e)

  stack-function_table :
      (table name function : String) (l : L)
      → lua.stack (function_table lua table name function l) ≡ lua.stack l
  unfolding function_table
  stack-function_table table name function l =
      let (t, e) = lua.stack-new_table l in
      lua.stack-set_global table _ t (lua.stack l)
        (stack-field name (lua.c_function function) t (lua.stack l) (lua.new_table l) e)

  stack-types_table : (l : L) → lua.stack (types_table lua l) ≡ lua.stack l
  unfolding types_table
  stack-types_table l =
      let (t, e) = lua.stack-new_table l in
      lua.stack-set_global "Types" _ t (lua.stack l) (
        stack-field "String" _ t (lua.stack l) _ (
          stack-field "Byte" _ t (lua.stack l) _ (
            stack-field "Word" _ t (lua.stack l) _ (
              stack-field "Qword" _ t (lua.stack l) _
                (stack-field "Dword" _ t (lua.stack l) _ e)))))

  stack-interpret_mode_table : (l : L) → lua.stack (interpret_mode_table lua l) ≡ lua.stack l
  unfolding interpret_mode_table
  stack-interpret_mode_table l =
      let (t, e) = lua.stack-new_table l in
      lua.stack-set_global "InterpretMode" _ t (lua.stack l) (
        stack-field "UntilNullTerm" _ t (lua.stack l) _ (
          stack-field "GivenSizeNullTerm" _ t (lua.stack l) _
            (stack-field "GivenSize" _ t (lua.stack l) _ e)))

  stack-load :
      (l : L)
      → ((load_stream lua true l).0 ≡ true)
        × (lua.stack (load_stream lua true l).1 ≡ lua.stack l)
        × ((load_net_socket lua true l).0 ≡ true)
        × (lua.stack (load_net_socket lua true l).1 ≡ lua.stack l)
        × ((load_debug lua true l).0 ≡ true)
        × (lua.stack (load_debug lua true l).1 ≡ lua.stack l)
  unfolding load_stream load_net_socket load_debug
  stack-load l = (
    refl,
    stack-function_table "ByteStreamConverter" "Convert" "ByteStreamConverter_Convert" _
        ∙ stack-function_table "ByteStream" "New" "ByteStream_New" _
        ∙ stack-interpret_mode_table _
        ∙ stack-types_table l,
    refl,
    stack-function_table "NetSocket" "New" "NetSocket_New" l,
    refl,
    stack-function_table "Debug" "HexDump" "Debug_HexDump" l,
  )

  stack-clear_global : (name : String) (l : L) → lua.stack (clear_global lua name l) ≡ lua.stack l
  unfolding clear_global
  stack-clear_global name l =
      lua.stack-set_global name (lua.push lua.nil l) lua.nil (lua.stack l)
        (lua.stack-push lua.nil l)

  cleared : (name : String) (l : L) → lua.global (lua.heap (clear_global lua name l)) name ≡ lua.nil
  unfolding clear_global
  cleared name l =
      lua.global-set_global name (lua.push lua.nil l) lua.nil (lua.stack l)
        (lua.stack-push lua.nil l)

  not_cleared :
      (other name : String) (l : L)
      → str_eq other name ≡ false
      → lua.global (lua.heap (clear_global lua name l)) other ≡ lua.global (lua.heap l) other
  unfolding clear_global
  not_cleared other name l e =
      lua.global-set_global_other other name (lua.push lua.nil l) e
      ∙ ap (λ h. lua.global h other) (lua.heap-push lua.nil l)

  -- `LuaStream::Unload` sets the four globals of the plugin to nil, and leaves the stack and the
  -- global of `LuaNetSocket` as they were.
  unload_stream-global :
      (l : L)
      → (lua.stack (unload_stream lua l) ≡ lua.stack l)
        × (lua.global (lua.heap (unload_stream lua l)) "Types" ≡ lua.nil)
        × (lua.global (lua.heap (unload_stream lua l)) "InterpretMode" ≡ lua.nil)
        × (lua.global (lua.heap (unload_stream lua l)) "ByteStream" ≡ lua.nil)
        × (lua.global (lua.heap (unload_stream lua l)) "ByteStreamConverter" ≡ lua.nil)
        × (lua.global (lua.heap (unload_stream lua l)) "NetSocket"
            ≡ lua.global (lua.heap l) "NetSocket")
  unfolding unload_stream
  unload_stream-global l = (
    stack-clear_global "ByteStreamConverter" _
        ∙ stack-clear_global "ByteStream" _
        ∙ stack-clear_global "InterpretMode" _
        ∙ stack-clear_global "Types" l,
    not_cleared "Types" "ByteStreamConverter" _ refl
        ∙ not_cleared "Types" "ByteStream" _ refl
        ∙ not_cleared "Types" "InterpretMode" _ refl
        ∙ cleared "Types" l,
    not_cleared "InterpretMode" "ByteStreamConverter" _ refl
        ∙ not_cleared "InterpretMode" "ByteStream" _ refl
        ∙ cleared "InterpretMode" _,
    not_cleared "ByteStream" "ByteStreamConverter" _ refl ∙ cleared "ByteStream" _,
    cleared "ByteStreamConverter" _,
    not_cleared "NetSocket" "ByteStreamConverter" _ refl
        ∙ not_cleared "NetSocket" "ByteStream" _ refl
        ∙ not_cleared "NetSocket" "InterpretMode" _ refl
        ∙ not_cleared "NetSocket" "Types" l refl,
  )
