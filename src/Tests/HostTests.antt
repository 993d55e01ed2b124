-- ===== src/Tests/HostTests.antt =====
-- The host over the small interpreter.
use h1z1_server.Base.{
  ℕ, ◌≡◌, ◌⊎◌, refl, Bool, true, false, ◌||◌, Option, Outcome, none, some, List, [], ◌∷◌, arith,
  done, fault, codes, same_bytes,
}
use h1z1_server.Lua.{Lua}
use h1z1_server.TableReader.{next_element}
use h1z1_server.LuaManager.{LuaManager}
use h1z1_server.ServerHost.Options.{
  ServerSettings, launched, unknown_option, parse_options, parse_options-flags,
}
use h1z1_server.ServerHost.Configuration.{LuaServerData, empty_data, read_info, read_config}
use h1z1_server.ServerHost.Reading.{read_config-Ended}
use h1z1_server.ServerHost.Port.{read_config-port}
use h1z1_server.ServerHost.Servers.{Host, DiskView, Round, base_path, run_servers}
use h1z1_server.ServerHost.Running.{Extends, run_servers-Extends}
use h1z1_server.Tests.SmallLua.{
  Value, Heap, Machine, a_table, number, chars, small_lua, with_values,
}

abbrev no_settings : ServerSettings
no_settings = record { run_headless = false; logs = false }

parse_options-flags_example :
    (parse_options no_settings (codes "-logs" ∷ [])
      ≡ launched (record { run_headless = false; logs = true }))
    × (parse_options no_settings (codes "-logs" ∷ codes "-x" ∷ codes "-help" ∷ [])
        ≡ unknown_option (codes "-x") (record { run_headless = false; logs = true }))
unfolding same_bytes
parse_options-flags_example =
    parse_options-flags no_settings (codes "-logs" ∷ []) (refl, tt) (codes "-x")
      (codes "-help" ∷ []) refl

-- A configuration.
abbrev entries : List (Value × Value)
entries = (chars (codes "ServerName"), chars (codes "S")) ∷ (chars (codes "Port"), number 321) ∷ []

abbrev lua : Lua Value Heap Machine ℕ
lua = small_lua entries

abbrev with_table : Machine
with_table = with_values (a_table ∷ []) lua.opened

abbrev manager : LuaManager
manager = record { bound = true; error = []; stack_count = 0 }

-- The port becomes the host's only character: 321 is 65 modulo 256.
read_config-Ended_example :
    (l : Machine) × (read_config lua 3 manager empty_data with_table
      ≡ some (
          done
            (record { config_file = []; server_name = codes "S"; host = 65 ∷ []; port = none }, l)))
    × (l.values ≡ [])
unfolding same_bytes
read_config-Ended_example =
    read_config-Ended lua 3 manager empty_data with_table a_table [] entries refl refl (omega arith)
      (refl, (refl, refl)) (omega arith) (omega arith) refl

read_config-port_example :
    (read_config lua 3 manager empty_data with_table ≡ some fault)
    ⊎ ((info : LuaServerData) × (l : Machine) × (read_config lua 3 manager empty_data with_table
          ≡ some (done (info, l)))
        × (info.port ≡ none))
read_config-port_example =
    read_config-port lua 3 manager empty_data with_table a_table [] entries refl refl (omega arith)
      (refl, (refl, refl)) (omega arith) (omega arith) refl

-- One folder with its files and one without.
abbrev is_there : List ℕ → Bool
unfolding same_bytes
is_there path =
    same_bytes path (codes "C:\\H\\Servers\\a\\Server.lua")
    || same_bytes path (codes "C:\\H\\Servers\\a\\Config.lua")

abbrev files : DiskView
files = record { exists = is_there; text_at = λ path. codes "return {}" }

-- A round in which the disk stays as it is.
abbrev round : ℕ → Round
round i = record { at_test = files; at_main = files; at_config = files }

abbrev folders : List (List ℕ)
folders = codes "b" ∷ codes "a" ∷ []

abbrev no_host : Host Machine
no_host = record { servers = []; environments = [] }

abbrev or_none : Option (Outcome (Host Machine) (Host Machine)) → Host Machine
or_none (some (done host)) = host
or_none _ = no_host

-- The host behind the run, which returns.
after : Host Machine
unfolding run_servers read_info read_config
after = or_none (run_servers lua (codes "C:\\H") 3 manager round no_host folders)

run_servers_returns :
    run_servers lua (codes "C:\\H") 3 manager round no_host folders ≡ some (done after)
unfolding run_servers after next_element
run_servers_returns = refl

servers_after :
    after.servers
    ≡ record {
      config_file = codes "Config.lua";
      server_name = codes "S";
      host = 65 ∷ [];
      port = none;
    }
      ∷ []
unfolding after next_element
servers_after = refl

run_servers-Extends_example : Extends no_host 1 after
unfolding is_there base_path
run_servers-Extends_example =
    run_servers-Extends lua (codes "C:\\H") 3 manager round no_host after folders
      run_servers_returns
