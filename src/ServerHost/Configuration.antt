-- ===== src/ServerHost/Configuration.antt =====
-- What the host reads from the tables that a server's files return: ServerHost/main.cpp from the
-- call that runs the main file on, and `LuaServerData` in main.h. What is printed is left out, but
-- for the call of `printf` that has too few arguments.
use h1z1_server.Base.{
  ℕ, ◌%◌, true, not, Option, none, some, List, [], ◌∷◌, codes, same_bytes, if◌then◌else◌, Outcome,
  done, threw, fault, ◌>>=◌,
}
use h1z1_server.Lua.{Lua}
use h1z1_server.Lua.Access.{is_string, is_number, is_table, at_place}
use h1z1_server.TableReader.{
  TableReader, init_reader, setup, close, get_key_string, get_key_type, get_type, get_string,
  get_int,
}
use h1z1_server.LuaManager.{LuaManager, clear_stack}
use h1z1_server.ServerHost.Elements.{Step, goes_on, leaves, shuts, while_elements}

-- The default constructor leaves the port as it was in memory.
pub record LuaServerData : Type 0 where
  pub config_file : List ℕ
  pub server_name : List ℕ
  pub host : List ℕ
  pub port : Option ℕ

abbrev pub empty_data : LuaServerData
empty_data = record { config_file = []; server_name = []; host = []; port = none }

-- A server that names no configuration file.
unfoldable pub with_default : LuaServerData → LuaServerData
unfolding same_bytes
with_default info =
    if same_bytes info.config_file []
    then record info { config_file = codes "Config.lua" }
    else info

-- An exception of a table's reader, in another object's terms.
abbrev pub within : {S T A : Type 0} → T → Outcome S A → Outcome T A
within t (done a) = done a
within t (threw e s) = threw e t
within t fault = fault

module _ {V H L D : Type 0} (lua : Lua V H L D) where
  -- The bodies of the two loops.
  unfoldable pub info_body : LuaServerData → L → Outcome (TableReader × L) (Step LuaServerData × L)
  unfolding get_key_type get_key_string get_type get_string same_bytes
  info_body info l = do
    kt ← get_key_type lua l
    if not (is_string kt) then done (shuts info, l) else (do
      key ← get_key_string lua init_reader l
      if same_bytes key.0 (codes "ConfigFile")
          then (do
            vt ← get_type lua key.1
            if not (is_string vt) then done (shuts info, key.1) else (do
              s ← get_string lua init_reader none key.1
              done (goes_on (record info { config_file = s.0 }), s.1)))
          else done (leaves info, key.1))

  -- The element's type, which the source asks for in each branch, is read once. The assignment of
  -- an `int` to a `std::string` takes it for a character.
  unfoldable pub config_body :
      LuaServerData → L → Outcome (TableReader × L) (Step LuaServerData × L)
  unfolding get_key_type get_key_string get_type get_string get_int same_bytes
  config_body info l = do
    kt ← get_key_type lua l
    if not (is_string kt) then done (shuts info, l) else (do
      key ← get_key_string lua init_reader l
      vt ← get_type lua key.1
      if same_bytes key.0 (codes "ServerName")
          then (if not (is_string vt) then done (shuts info, key.1) else (do
            s ← get_string lua init_reader none key.1
            done (goes_on (record info { server_name = s.0 }), s.1)))
          else if same_bytes key.0 (codes "Host")
          then (if not (is_string vt) then done (shuts info, key.1) else (do
            s ← get_string lua init_reader none key.1
            done (goes_on (record info { host = s.0 }), s.1)))
          else if same_bytes key.0 (codes "Port")
          then (if not (is_number vt) then done (shuts info, key.1) else (do
            i ← get_int lua init_reader none key.1
            done (goes_on (record info { host = i.0 % 256 ∷ [] }), i.1)))
          else done (leaves info, key.1))

  -- A loop and what stands behind it: where the body has closed and deleted the interpreter,
  -- `Close` and `ClearStack` use it still.
  unfoldable pub read_table :
      (LuaServerData → L → Outcome (TableReader × L) (Step LuaServerData × L))
      → ℕ
      → LuaManager
      → LuaServerData
      → L
      → Option (Outcome L (LuaServerData × L))
  unfolding while_elements setup close clear_stack
  read_table body n m info l = elim (setup lua true init_reader 0 l) [
    | fault ↦ some fault
    | threw e s ↦ some (threw e l)
    | done (r, l1) ↦ elim (while_elements lua body n r info l1) [
      | none ↦ none
      | some result ↦ some (do
        ended ← within l result
        elim ended.0 [
          | shuts info' ↦ fault
          | leaves info' ↦ do
            c ← within l (close lua ended.1.0 ended.1.1)
            done (info', clear_stack lua m c.1)
          | goes_on info' ↦ do
            c ← within l (close lua ended.1.0 ended.1.1)
            done (info', clear_stack lua m c.1)
        ])
    ]
  ]

  -- The table of the main file, or the default.
  unfoldable pub read_info : ℕ → LuaManager → L → Option (Outcome L (LuaServerData × L))
  unfolding read_table info_body at_place with_default
  read_info n m l = elim (at_place {S = L} lua 0 l) [
    | fault ↦ some fault
    | threw e s ↦ some (threw e s)
    | done v ↦
        if not (is_table (lua.type_of v))
        then some (done (record empty_data { config_file = codes "Config.lua" }, l))
        else elim (read_table info_body n m empty_data l) [
          | none ↦ none
          | some result ↦ some (do i ← result; done (with_default i.0, i.1))
        ]
  ]

  unfoldable pub read_config :
      ℕ → LuaManager → LuaServerData → L → Option (Outcome L (LuaServerData × L))
  unfolding read_table config_body
  read_config n m info l = read_table config_body n m info l
