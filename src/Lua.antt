-- ===== src/Lua.antt =====
-- The calls of the Lua interpreter that the LuaSystem makes, as an interface: what the Lua manual
-- says of the stack, the registry and the tables. `L` is the type of interpreter states, `H` of
-- their part that is not the stack, `V` of Lua values and `D` of floating-point numbers. Index -1
-- is place 0.
pub mod Access
use Prim.Native.String.{String}
use text.Mathlib.Text.{◌==◌ as str_eq}
use h1z1_server.Base.{
  ℕ, ◌+◌, ◌<◌, ◌≤◌, ◌≡◌, Bool, true, false, Option, none, some, List, [], ◌∷◌, ◌++◌, length, take,
  drop, get_elem?,
}

pub data LuaType : Type 0 where
  nil_type boolean_type light_userdata number_type string_type table_type function_type
        userdata_type thread_type :
      LuaType

pub record Lua (V H L D : Type 0) : Type 0 where
  pub stack : L → List V
  pub heap : L → H
  -- Values.
  pub type_of : V → LuaType
  pub nil : V
  pub bytes : V → List ℕ
  pub to_boolean : V → Bool
  pub to_number : V → D
  pub to_integer : V → ℕ
  pub number_minus_one : D
  -- Any `lua_push…`, and `lua_pop`.
  pub push : V → L → L
  pub stack-push : (v : V) (l : L) → stack (push v l) ≡ v ∷ stack l
  pub heap-push : (v : V) (l : L) → heap (push v l) ≡ heap l
  pub pop : ℕ → L → L
  pub stack-pop : (n : ℕ) (l : L) → n ≤ length (stack l) → stack (pop n l) ≡ drop n (stack l)
  pub heap-pop : (n : ℕ) (l : L) → n ≤ length (stack l) → heap (pop n l) ≡ heap l
  -- `lua_settop` with an index that is not negative.
  pub set_top : ℕ → L → L
  -- `lua_tolstring`: the bytes of a string, which it leaves as it is; a number becomes a string.
  pub to_lstring : ℕ → L → Option (List ℕ) × L
  pub to_lstring-string :
      (i : ℕ) (l : L) (v : V)
      → get_elem? (stack l) i ≡ some v
      → type_of v ≡ string_type
      → to_lstring i l ≡ (some (bytes v), l)
  -- `luaL_ref` into the registry, `luaL_unref`, and `lua_rawgeti` from there.
  pub ref : L → ℕ × L
  pub ref_value : H → ℕ → V
  pub stack-ref : (v : V) (l : L) (vs : List V) → stack l ≡ v ∷ vs → stack (ref l).1 ≡ vs
  pub ref_value-ref :
      (v : V) (l : L) (vs : List V) → stack l ≡ v ∷ vs → ref_value (heap (ref l).1) (ref l).0 ≡ v
  pub unref : ℕ → L → L
  pub stack-unref : (r : ℕ) (l : L) → stack (unref r l) ≡ stack l
  -- `lua_rawget` with the key on top of the table, at -2.
  pub entry : H → V → V → V
  pub raw_get : L → L
  pub stack-raw_get :
      (l : L) (k t : V) (vs : List V)
      → stack l ≡ k ∷ t ∷ vs
      → type_of t ≡ table_type
      → stack (raw_get l) ≡ entry (heap l) t k ∷ t ∷ vs
  pub heap-raw_get : (l : L) → heap (raw_get l) ≡ heap l
  -- `lua_next` with the table at -2: the entry that follows a key, from nil on.
  pub following : H → V → V → Option (V × V)
  pub next : L → Bool × L
  pub next-more :
      (l : L) (k t : V) (vs : List V) (e : V × V)
      → stack l ≡ k ∷ t ∷ vs
      → type_of t ≡ table_type
      → following (heap l) t k ≡ some e
      → ((next l).0 ≡ true) × (stack (next l).1 ≡ e.1 ∷ e.0 ∷ t ∷ vs)
  pub next-last :
      (l : L) (k t : V) (vs : List V)
      → stack l ≡ k ∷ t ∷ vs
      → type_of t ≡ table_type
      → following (heap l) t k ≡ none
      → ((next l).0 ≡ false) × (stack (next l).1 ≡ t ∷ vs)
  pub heap-next : (l : L) → heap (next l).1 ≡ heap l
  pub objlen : H → V → ℕ
  -- Values that `lua_push…` makes: a C function is known by its name.
  pub integer : ℕ → V
  pub c_function : String → V
  -- `lua_newtable`, `lua_setfield` into the table at -2, `lua_setglobal`, and the globals.
  pub new_table : L → L
  pub stack-new_table : (l : L) → (t : V) × (stack (new_table l) ≡ t ∷ stack l)
  pub set_field : String → L → L
  pub stack-set_field :
      (name : String) (l : L) (v t : V) (vs : List V)
      → stack l ≡ v ∷ t ∷ vs
      → stack (set_field name l) ≡ t ∷ vs
  pub set_global : String → L → L
  pub stack-set_global :
      (name : String) (l : L) (v : V) (vs : List V)
      → stack l ≡ v ∷ vs
      → stack (set_global name l) ≡ vs
  pub global : H → String → V
  pub global-set_global :
      (name : String) (l : L) (v : V) (vs : List V)
      → stack l ≡ v ∷ vs
      → global (heap (set_global name l)) name ≡ v
  pub global-set_global_other :
      (other name : String) (l : L)
      → str_eq other name ≡ false
      → global (heap (set_global name l)) other ≡ global (heap l) other
  -- `lua_open` and `luaL_openlibs`.
  pub opened : L
  -- `luaL_loadbuffer` pushes a function or a message; `lua_pcall` takes the function and the
  -- arguments above it, and leaves the results or a message.
  pub load_buffer : List ℕ → List ℕ → L → Bool × L
  pub stack-load_buffer :
      (script name : List ℕ) (l : L) → (v : V) × (stack (load_buffer script name l).1 ≡ v ∷ stack l)
  pub pcall : ℕ → ℕ → L → Bool × L
  pub pcall-success :
      (args results : ℕ) (l : L)
      → args < length (stack l)
      → (pcall args results l).0 ≡ true
      → (vs : List V) × (stack (pcall args results l).1 ≡ vs ++ drop (args + 1) (stack l))
        × (length vs ≡ results)
  pub pcall-failure :
      (args results : ℕ) (l : L)
      → args < length (stack l)
      → (pcall args results l).0 ≡ false
      → (v : V) × (stack (pcall args results l).1 ≡ v ∷ drop (args + 1) (stack l))
