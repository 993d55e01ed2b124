-- ===== src/ServerHost/Port.antt =====
-- The port that the host's reading of a configuration leaves.
use h1z1_server.Base.{
  ℕ, ◌^◌, ◌<◌, ◌≡◌, refl, Bool, true, false, Option, some, List, [], ◌∷◌, if◌then◌else◌, Outcome,
  done, fault, length, subst, codes, same_bytes, inl, inr, ◌⊎◌, not, ◌%◌,
}
use h1z1_server.Lua.{Lua, table_type}
use h1z1_server.TableReader.Rounds.{Enumerates}
use h1z1_server.LuaManager.{LuaManager}
use h1z1_server.ServerHost.Elements.{Step, goes_on, leaves, shuts, then_step, fold_entries}
use h1z1_server.ServerHost.Configuration.{LuaServerData, read_config}
use h1z1_server.Lua.Access.{is_string, is_number}
use h1z1_server.ServerHost.Entries.{config_entry}
use h1z1_server.ServerHost.Reading.{Ended, read_config-Ended}

module _ {V H L D : Type 0} (lua : Lua V H L D) where
  -- The data of a step have this port.
  HasPort : Option ℕ → Step LuaServerData → Type 0
  HasPort port (goes_on info) = info.port ≡ port
  HasPort port (leaves info) = info.port ≡ port
  HasPort port (shuts info) = info.port ≡ port

  if-HasPort :
      (port : Option ℕ) (b : Bool) (x y : Step LuaServerData)
      → HasPort port x
      → HasPort port y
      → HasPort port (if b then x else y)
  if-HasPort port true x y h g = h
  if-HasPort port false x y h g = g

  goes_on-HasPort :
      (port : Option ℕ) (info : LuaServerData) → info.port ≡ port → HasPort port (goes_on info)
  unfolding HasPort
  goes_on-HasPort port info e = e

  leaves-HasPort :
      (port : Option ℕ) (info : LuaServerData) → info.port ≡ port → HasPort port (leaves info)
  unfolding HasPort
  leaves-HasPort port info e = e

  shuts-HasPort :
      (port : Option ℕ) (info : LuaServerData) → info.port ≡ port → HasPort port (shuts info)
  unfolding HasPort
  shuts-HasPort port info e = e

  config_entry-HasPort :
      (info : LuaServerData) (k v : V) → HasPort info.port (config_entry lua info k v)
  config_entry-HasPort info k v =
      if-HasPort info.port (not (is_string (lua.type_of k))) _ _ closed (
        if-HasPort info.port (same_bytes (lua.bytes k) (codes "ServerName")) _ _
          (if-HasPort info.port (is_string (lua.type_of v)) _ _
            (goes_on-HasPort info.port (record info { server_name = lua.bytes v }) refl) closed)
          (if-HasPort info.port (same_bytes (lua.bytes k) (codes "Host")) _ _
            (if-HasPort info.port (is_string (lua.type_of v)) _ _
              (goes_on-HasPort info.port (record info { host = lua.bytes v }) refl) closed)
            (if-HasPort info.port (same_bytes (lua.bytes k) (codes "Port")) _ _
              (if-HasPort info.port (is_number (lua.type_of v)) _ _
                (goes_on-HasPort info.port (record info { host = lua.to_integer v % 256 ∷ [] })
                  refl)
                closed)
              (leaves-HasPort info.port info refl))))
    where
      closed : HasPort info.port (shuts info)
      closed = shuts-HasPort info.port info refl

  then_step-HasPort :
      (port : Option ℕ) (step : Step LuaServerData) (f : LuaServerData → Step LuaServerData)
      → ((info : LuaServerData) → HasPort info.port (f info))
      → HasPort port step
      → HasPort port (then_step step f)
  unfolding HasPort
  then_step-HasPort port (goes_on info) f h e = subst (λ p. HasPort p (f info)) e (h info)
  then_step-HasPort port (leaves info) f h e = e
  then_step-HasPort port (shuts info) f h e = e

  fold_entries-HasPort :
      (info : LuaServerData) (es : List (V × V))
      → HasPort info.port (fold_entries (config_entry lua) info es)
  unfolding HasPort
  fold_entries-HasPort info [] = refl
  fold_entries-HasPort info (e ∷ es) =
      then_step-HasPort info.port (config_entry lua info e.0 e.1) _ (λ b. fold_entries-HasPort b es)
        (config_entry-HasPort info e.0 e.1)

  Ended-port :
      (port : Option ℕ) (ws : List V) (step : Step LuaServerData)
      (o : Option (Outcome L (LuaServerData × L)))
      → HasPort port step
      → Ended lua step ws o
      → (o ≡ some fault)
        ⊎ ((info : LuaServerData) × (l : L) × (o ≡ some (done (info, l))) × (info.port ≡ port))
  unfolding HasPort
  Ended-port port ws (shuts info) o h e = inl e
  Ended-port port ws (leaves info) o h (l, e, left) = inr (info, l, e, h)
  Ended-port port ws (goes_on info) o h (l, e, left) = inr (info, l, e, h)

  -- Under the conditions for reading a configuration from a table on top of the stack, the
  -- reading either ends in a fault or returns data whose port is what it was before, whatever
  -- the table says.
  pub read_config-port :
      (n : ℕ) (m : LuaManager) (info : LuaServerData) (l : L) (t : V) (ws : List V)
      (es : List (V × V))
      → lua.stack l ≡ t ∷ ws
      → lua.type_of t ≡ table_type
      → 0 < (lua.ref (lua.push t l)).0
      → Enumerates lua (lua.heap (lua.ref (lua.push t l)).1) t lua.nil es
      → length es < n
      → length es < 2 ^ 31
      → m.stack_count ≡ length ws
      → (read_config lua n m info l ≡ some fault)
        ⊎ ((info' : LuaServerData) × (l' : L) × (read_config lua n m info l
              ≡ some (done (info', l')))
            × (info'.port ≡ info.port))
  read_config-port n m info l t ws es e table pos chain enough small count =
      Ended-port info.port ws (fold_entries (config_entry lua) info es) (read_config lua n m info l)
        (fold_entries-HasPort info es)
        (read_config-Ended lua n m info l t ws es e table pos chain enough small count)
