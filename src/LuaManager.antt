-- ===== src/LuaManager.antt =====
-- `LuaManager` (ServerSystem/LuaSystem): compiling and running scripts, and the files they come
-- from. A manager that is constructed without a state has a pointer of no determined value; here
-- `bound` says whether its pointer is not null.
pub mod Execution
pub mod FileNames
use h1z1_server.Base.{
  ℕ, ◌+◌, ◌-◌, Bool, true, false, not, ◌&&◌, ◌||◌, Option, none, some, List, [], ◌∷◌, ◌++◌, ◌==◌,
  leb, if◌then◌else◌, length, take, drop, Outcome, done, ◌>>=◌, codes, same_bytes, contains_pair,
  find_last_of,
}
use h1z1_server.Lua.{Lua}
use h1z1_server.Lua.Access.{is_string, at_place, pop_values, string_at_top}

pub data ExecutionResult : Type 0 where
  no_state no_file compile_error run_error success : ExecutionResult

pub record LuaManager : Type 0 where
  pub bound : Bool
  pub error : List ℕ
  pub stack_count : ℕ

abbrev pub no_information : List ℕ
no_information = codes "No information given."

-- The constructor with a state.
unfoldable pub init_manager : Bool → ℕ → LuaManager
init_manager given stack_count = record {
  bound = given;
  error = codes "No error occured.";
  stack_count = stack_count;
}

-- The two separators of directories, and the period.
abbrev pub is_slash : ℕ → Bool
is_slash b = (b == b'\\') || (b == b'/')

abbrev pub is_period : ℕ → Bool
is_period b = b == b'.'

-- The directory of the program, from the name of its file (FileSystem/File).
unfoldable pub local_path : List ℕ → List ℕ
local_path program = elim (find_last_of is_slash program) [
  | none ↦ program
  | some i ↦ take i program
]

-- A path without a drive is taken from the directory of the program.
unfoldable pub full_path : List ℕ → List ℕ → List ℕ
unfolding contains_pair
full_path here path =
    if not (contains_pair b':' b'/' path) && not (contains_pair b':' b'\\' path)
    then here ++ b'\\' ∷ path
    else path

-- The name of a script: its file without directories and extension.
unfoldable pub base_name : List ℕ → List ℕ
unfolding find_last_of
base_name path = elim (find_last_of is_slash path) [ none ↦ path | some i ↦ drop (i + 1) path ]

unfoldable pub script_name : List ℕ → List ℕ
unfolding base_name find_last_of
script_name path = elim (find_last_of is_period (base_name path)) [
  | none ↦ base_name path
  | some i ↦ take i (base_name path)
]

module _ {V H L D : Type 0} (lua : Lua V H L D) where
  -- `Setup`.
  unfoldable pub setup_manager : LuaManager → LuaManager × L
  setup_manager m = (record m { bound = true; error = codes "No error occured." }, lua.opened)

  -- `Close`: no state remains, but the pointer is kept.
  unfoldable pub close_manager : LuaManager → L → LuaManager × Option L
  close_manager m l =
      (record m { error = codes "Lua state closed." }, if m.bound then none else some l)

  -- `ClearStack`. Where the stack is below the count, `lua_pop` is given a negative number, and
  -- what it calls sets the stack's size from the bottom.
  unfoldable pub clear_stack : LuaManager → L → L
  clear_stack m l =
      if leb m.stack_count (length (lua.stack l))
      then lua.pop (length (lua.stack l) - m.stack_count) l
      else lua.set_top (m.stack_count - length (lua.stack l) - 1) l

  -- The error on top of the stack, which is removed if it is a string.
  unfoldable pub report :
      ExecutionResult
      → LuaManager
      → L
      → Outcome (LuaManager × L) (ExecutionResult × (LuaManager × L))
  unfolding at_place string_at_top pop_values
  report result m l = do
    v ← at_place lua 0 l
    if is_string (lua.type_of v)
        then (do
          s ← string_at_top lua l
          l' ← pop_values lua 1 s.1
          done (result, (record m { error = s.0 }, l')))
        else done (result, (record m { error = no_information }, l))

  -- `Execute`.
  unfoldable pub execute :
      LuaManager
      → List ℕ
      → List ℕ
      → ℕ
      → ℕ
      → L
      → Outcome (LuaManager × L) (ExecutionResult × (LuaManager × L))
  unfolding report
  execute m script name args results l =
      if not m.bound
      then done (no_state, (m, l))
      else (let m' : LuaManager = record m { stack_count = length (lua.stack l) } in
          let loaded = lua.load_buffer script (codes "=LuaManager#" ++ name) l in
          let called = lua.pcall args results loaded.1 in
          if not loaded.0
          then report compile_error m' loaded.1
          else if not called.0
          then report run_error m' called.1
          else done (success, (m', called.1)))

  -- `ExecuteFile`, with the directory of the program and the file system at hand.
  unfoldable pub execute_file :
      List ℕ
      → (List ℕ → Bool)
      → (List ℕ → List ℕ)
      → LuaManager
      → List ℕ
      → List ℕ
      → ℕ
      → ℕ
      → L
      → Outcome (LuaManager × L) (ExecutionResult × (LuaManager × L))
  unfolding full_path script_name execute same_bytes
  execute_file here file_exists read_file m path name args results l =
      if not (file_exists (full_path here path))
      then done (no_file, (record m { error = codes "File does not exist." }, l))
      else execute m (read_file (full_path here path))
          (if same_bytes name [] then script_name (full_path here path) else name) args results l

  -- `RequireFile`.
  unfoldable pub require_file :
      List ℕ
      → (List ℕ → Bool)
      → (List ℕ → List ℕ)
      → LuaManager
      → List ℕ
      → ℕ
      → L
      → Outcome (LuaManager × L) (ExecutionResult × (LuaManager × L))
  unfolding execute_file
  require_file here file_exists read_file m path results l =
      execute_file here file_exists read_file m path [] 0 results l
