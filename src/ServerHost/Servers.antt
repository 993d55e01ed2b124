-- ===== src/ServerHost/Servers.antt =====
-- The loop of ServerHost/main.cpp over the folders of servers. A round is passed over where the
-- main file is missing or a script fails.
use h1z1_server.Base.{
  ℕ, ◌+◌, Bool, true, false, not, Option, none, some, List, [], ◌∷◌, ◌++◌, codes, if◌then◌else◌,
  Outcome, done, threw, fault,
}
use h1z1_server.Lua.{Lua}
use h1z1_server.LuaManager.{LuaManager, ExecutionResult, success, setup_manager, require_file}
use h1z1_server.Plugins.{load_stream, load_net_socket, load_debug}
use h1z1_server.ServerHost.Configuration.{LuaServerData, read_info, read_config}

-- `g_Servers` and `g_ServerEnvironments`.
pub record Host (L : Type 0) : Type 0 where
  pub servers : List LuaServerData
  pub environments : List (LuaManager × L)

-- What `file_exists` and `read_file` answer at one time. Scripts, and other programs, may change the
-- disk between the calls of a round: the test for the main file, and the two scripts that are run.
pub record DiskView : Type 0 where
  pub exists : List ℕ → Bool
  pub text_at : List ℕ → List ℕ

pub record Round : Type 0 where
  pub at_test : DiskView
  pub at_main : DiskView
  pub at_config : DiskView

-- A step of the program that goes on with what a call returns.
abbrev pub and_then :
    {S T A B : Type 0} → T → Outcome S A → (A → Option (Outcome T B)) → Option (Outcome T B)
and_then t (done a) f = f a
and_then t (threw e s) f = some (threw e t)
and_then t fault f = some fault

abbrev pub and_then_loop :
    {S T A B : Type 0}
    → T
    → Option (Outcome S A)
    → (A → Option (Outcome T B))
    → Option (Outcome T B)
and_then_loop t none f = none
and_then_loop t (some o) f = and_then t o f

abbrev pub is_success : ExecutionResult → Bool
is_success success = true
is_success _ = false

module _ {V H L D : Type 0} (lua : Lua V H L D) (here : List ℕ) where
  -- The path of a server's folder.
  unfoldable pub base_path : List ℕ → List ℕ
  base_path folder = here ++ codes "\\Servers\\" ++ folder

  -- An interpreter with its plugins; `m` is what the memory of the new manager holds.
  unfoldable pub prepare_server : LuaManager → LuaManager × L
  unfolding setup_manager load_stream load_net_socket load_debug
  prepare_server m =
      let (m', l) = setup_manager lua m in
      (m', (load_debug lua true (load_net_socket lua true (load_stream lua true l).1).1).1)

  -- The configuration file of a server whose information is known. Where it fails, `printf` is
  -- called with an argument less than its format asks for.
  unfoldable pub configure_server :
      ℕ
      → DiskView
      → Host L
      → List ℕ
      → LuaManager
      → LuaServerData
      → L
      → Option (Outcome (Host L) (Host L))
  unfolding base_path require_file read_config
  configure_server n files host folder m info l =
      and_then host
        (require_file lua here files.exists files.text_at m
          (base_path folder ++ codes "\\" ++ info.config_file) 1 l)
        (λ r.
          if is_success r.0
          then and_then_loop host (read_config lua n r.1.0 info r.1.1) (λ c. some (
              done (record {
                servers = host.servers ++ c.0 ∷ [];
                environments = host.environments ++ (r.1.0, c.1) ∷ [];
              })))
          else some fault)

  unfoldable pub run_server :
      ℕ → LuaManager → Round → Host L → List ℕ → Option (Outcome (Host L) (Host L))
  unfolding base_path prepare_server require_file read_info configure_server
  run_server n m round host folder =
      if not (round.at_test.exists (base_path folder ++ codes "\\Server.lua"))
      then some (done host)
      else (let (m', l) = prepare_server m in
          and_then host
            (require_file lua here round.at_main.exists round.at_main.text_at m'
              (base_path folder ++ codes "\\Server.lua") 1 l)
            (λ r.
              if is_success r.0
              then and_then_loop host (read_info lua n r.1.0 r.1.1)
                  (λ i. configure_server n round.at_config host folder r.1.0 i.0 i.1)
              else some (done host)))

  -- `rounds` has the answers of the disk for each round.
  unfoldable pub run_servers :
      ℕ → LuaManager → (ℕ → Round) → Host L → List (List ℕ) → Option (Outcome (Host L) (Host L))
  unfolding run_server
  run_servers n m rounds host [] = some (done host)
  run_servers n m rounds host (folder ∷ folders) =
      and_then_loop host (run_server n m (rounds 0) host folder)
        (λ host'. run_servers n m (λ i. rounds (i + 1)) host' folders)
