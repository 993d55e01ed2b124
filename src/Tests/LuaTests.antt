-- ===== src/Tests/LuaTests.antt =====
-- The LuaSystem over the small interpreter.
use h1z1_server.Base.{ℕ, ◌≡◌, ◌⊎◌, refl, true, some, List, [], ◌∷◌, arith, done, minus_one, codes}
use h1z1_server.Lua.{Lua}
use h1z1_server.TableReader.{TableReader, setup, close, get_string}
use h1z1_server.TableReader.Traversal.{traverse, traverse-Enumerates}
use h1z1_server.TableReader.Closing.{setup-traverse-close}
use h1z1_server.LuaManager.{
  ExecutionResult, LuaManager, execute, clear_stack, compile_error, run_error,
}
use h1z1_server.LuaManager.Execution.{Succeeded, Reported, execute-cases, clear_stack-execute}
use h1z1_server.Tests.SmallLua.{
  Value, Heap, Machine, a_table, number, chars, small_lua, with_values, store_ref,
}
use h1z1_server.TableReader.Element.{get_string_key}

abbrev two_entries : List (Value × Value)
two_entries = (chars (codes "ConfigFile"), chars (codes "C.lua")) ∷ (number 1, number 7) ∷ []

abbrev lua : Lua Value Heap Machine ℕ
lua = small_lua two_entries

-- A table over a number, and the same with a reference to the table in the registry.
abbrev with_table : Machine
with_table = with_values (a_table ∷ number 5 ∷ []) lua.opened

abbrev with_ref : Machine
with_ref = store_ref (with_values (a_table ∷ number 5 ∷ []) lua.opened)

abbrev reader : TableReader
reader = record { bound = true; table_ref = 1; current_idx = minus_one }

traverse-Enumerates_example :
    (l : Machine) × (traverse lua 3 reader with_ref
      ≡ some (done (two_entries, (record reader { current_idx = 2 }, l))))
    × (l.values ≡ a_table ∷ number 5 ∷ [])
    × (l.memory ≡ with_ref.memory)
traverse-Enumerates_example =
    traverse-Enumerates lua 3 reader with_ref a_table two_entries refl refl refl
      (refl, (refl, refl)) (omega arith) (omega arith)

setup-traverse-close_example :
    (r r' r'' : TableReader) × (l1 l2 l3 : Machine) × (setup lua true reader 0 with_table
      ≡ done (r, l1))
    × (traverse lua 3 r l1 ≡ some (done (two_entries, (r', l2))))
    × (close lua r' l2 ≡ done (r'', l3))
    × (l3.values ≡ number 5 ∷ [])
setup-traverse-close_example =
    setup-traverse-close lua reader with_table a_table (number 5 ∷ []) two_entries 3 refl refl
      (omega arith) (refl, (refl, refl)) (omega arith) (omega arith)

get_string_key_example :
    (l : Machine) × (get_string lua reader (some (chars (codes "ConfigFile"))) with_ref
      ≡ done (codes "C.lua", l))
    × (l.values ≡ number 5 ∷ [])
get_string_key_example = get_string_key lua reader with_ref (chars (codes "ConfigFile")) refl

abbrev manager : LuaManager
manager = record { bound = true; error = []; stack_count = 0 }

abbrev script : List ℕ
script = codes "return {}"

execute-cases_example :
    Succeeded lua manager 1 with_table (execute lua manager script [] 0 1 with_table)
    ⊎ ((result : ExecutionResult) × (v : Value) × ((result ≡ compile_error) ⊎ (result ≡ run_error))
        × Reported lua result
            (record manager { stack_count = 2 })
            v
            with_table.values
            (execute lua manager script [] 0 1 with_table))
execute-cases_example = execute-cases lua manager script [] 1 with_table refl

clear_stack-execute_example :
    (result : ExecutionResult) × (m : LuaManager) × (l : Machine) × (execute lua manager script [] 0
        1 with_table
      ≡ done (result, (m, l)))
    × ((clear_stack lua m l).values ≡ with_table.values)
clear_stack-execute_example = clear_stack-execute lua manager script [] 1 with_table refl
