-- ===== src/LuaNetSocket.antt =====
-- The Lua objects for sockets and their events (ServerSystem/LuaSystem/NetSocket). Pointers are
-- numbers, 0 the null pointer; a pointer p leads to place p - 1 of a list of objects, where `none`
-- is one that was deleted. The pointer in the block of a `NetSocket` userdata, which never changes,
-- stands for the block.
pub mod Events
pub mod Methods
pub mod Calling
pub mod Firing
pub mod Connecting
pub mod Releasing
pub mod Twice
pub mod Reading
use h1z1_server.Base.{
  ℕ, ◌-◌, ◌==◌, ◌≡◌, ◌∷◌, ◌+◌, drop, Bool, true, false, Option, none, some, List, get_elem?, set,
  Outcome, done, fault, if◌then◌else◌, length, ◌<◌,
}
use h1z1_server.Lua.{Lua}
use h1z1_server.Stream.Buffer.{Stream}
use h1z1_server.Sockets.{NetSocket}

-- `bound`: whether the pointer to the interpreter's state is not null.
pub record EventUserdata : Type 0 where
  pub socket : ℕ
  pub bound : Bool
  pub func_ref : ℕ
  pub socket_ref : ℕ
  pub event_ref : ℕ
  pub handler_index : ℕ

-- The interpreter's state, and the objects that scripts have made.
pub record World (L : Type 0) : Type 0 where
  pub state : L
  pub sockets : List (Option NetSocket)
  pub events : List EventUserdata
  pub readers : List Stream

-- Light userdata, here a client's address or that of a block with a pointer to a socket; the
-- pointer in a block (`*(NetSocket **)lua_touserdata`); and the values for truth.
pub record Pointers (V : Type 0) : Type 0 where
  pub light_userdata : ℕ → V
  pub check_light : V → Option ℕ
  pub block : ℕ → V
  pub block_pointer : V → Option ℕ
  pub block_pointer-block : (p : ℕ) → block_pointer (block p) ≡ some p
  pub is_boolean : V → Bool
  pub boolean : Bool → V

-- `lua_pcall` of a function that may call the methods of the objects: what Lua's manual says of
-- the stack, where no results are wanted.
pub record Scripts {V H L D : Type 0} (lua : Lua V H L D) : Type 0 where
  pub run : ℕ → World L → Bool × World L
  pub run-success :
      (args : ℕ) (w : World L)
      → args < length (lua.stack w.state)
      → (run args w).0 ≡ true
      → lua.stack (run args w).1.state ≡ drop (args + 1) (lua.stack w.state)
  pub run-failure :
      (args : ℕ) (w : World L)
      → args < length (lua.stack w.state)
      → (run args w).0 ≡ false
      → (v : V) × (lua.stack (run args w).1.state ≡ v ∷ drop (args + 1) (lua.stack w.state))

-- The object behind a pointer, and its change.
unfoldable pub socket_at : {L S : Type 0} → ℕ → World L → Outcome S NetSocket
socket_at p w = if p == 0 then fault else elim (get_elem? w.sockets (p - 1)) [
  | none ↦ fault
  | some found ↦ elim found [ none ↦ fault | some s ↦ done s ]
]

unfoldable pub put_socket : {L : Type 0} → ℕ → NetSocket → World L → World L
put_socket p s w = record w { sockets = set w.sockets (p - 1) (some s) }

unfoldable pub event_at : {L S : Type 0} → ℕ → World L → Outcome S EventUserdata
event_at p w =
    if p == 0 then fault else elim (get_elem? w.events (p - 1)) [ none ↦ fault | some e ↦ done e ]
