-- ===== src/LuaNetSocket/Events.antt =====
-- Events: the handler that is registered for every one of them, `Connect` and `Disconnect`, and the
-- collection of an event by Lua.
use h1z1_server.Base.{
  ℕ, ◌+◌, ◌==◌, Bool, true, not, ◌||◌, some, List, [], ◌∷◌, ◌++◌, length, Outcome, done, threw,
  fault, script_error, ◌>>=◌, if◌then◌else◌, get_elem?, codes, c_string, same_bytes,
}
use h1z1_server.Lua.{Lua}
use h1z1_server.Lua.Access.{is_string, at_place, pop_values}
use h1z1_server.Sockets.{NetSocket, add_handler, remove_handler_at}
use h1z1_server.LuaStream.{Arguments, argument}
use h1z1_server.LuaStream.Methods.{given, push_lua_stream}
use h1z1_server.LuaNetSocket.{
  EventUserdata, World, Pointers, Scripts, socket_at, put_socket, event_at,
}

-- The world after a method of the socket at a pointer.
unfoldable pub changed_socket :
    {L : Type 0} → ℕ → World L → Outcome NetSocket NetSocket → Outcome (World L) (World L)
unfolding put_socket
changed_socket p w (done s) = done (put_socket p s w)
changed_socket p w (threw e s) = threw e (put_socket p s w)
changed_socket p w fault = fault

module _ {V H L D : Type 0} (lua : Lua V H L D) (checks : Arguments V D) (pointers : Pointers V)
    (scripts : Scripts lua) (malloc : ℕ → Bool) where
  -- The function that an event calls, with its arguments: the client and a reader of the packet.
  unfoldable pub push_call : EventUserdata → ℕ → List ℕ → ℕ → World L → Outcome (World L) (World L)
  unfolding pop_values push_lua_stream
  push_call e client bytes size w = do
    let owner = lua.push (lua.ref_value (lua.heap w.state) e.socket_ref) w.state
    l ← pop_values lua 2 (lua.push (lua.ref_value (lua.heap owner) e.event_ref) owner)
    let called =
        lua.push (pointers.light_userdata client)
          (lua.push (lua.ref_value (lua.heap l) e.func_ref) l)
    let r = push_lua_stream checks malloc (some bytes) size w.readers
    done (record w { state = lua.push r.0 called; readers = r.1 })

  -- What remains of a call: an error that is a string is taken off the stack.
  unfoldable pub finish_call : Bool × World L → Outcome (World L) (World L)
  unfolding at_place pop_values
  finish_call r = if r.0 then done r.1 else (do
    v ← at_place lua 0 r.1.state
    if not (is_string (lua.type_of v))
        then done r.1
        else (do l ← pop_values lua 1 r.1.state; done (record r.1 { state = l })))

  -- `LuaNetSocket_EventHandler`.
  unfoldable pub event_handler : ℕ → ℕ → List ℕ → ℕ → World L → Outcome (World L) (World L)
  unfolding event_at push_call finish_call
  event_handler userdata client bytes size w = if userdata == 0 then done w else (do
    e ← event_at userdata w
    if not e.bound || ((e.func_ref == 0) || (e.socket_ref == 0))
        then done w
        else (do called ← push_call e client bytes size w; finish_call (scripts.run 2 called)))

  -- `NetSocket_Event_Connect`, with the value that its closure keeps; `handler` is the address of
  -- the function above. The userdata for the event is the result.
  unfoldable pub connect : ℕ → V → List V → World L → Outcome (World L) (V × World L)
  unfolding socket_at put_socket add_handler
  connect handler upvalue args w = if not (length args == 2) then threw script_error w else (do
    object ← given (get_elem? args 0)
    function ← given (get_elem? args 1)
    socket ← given (pointers.block_pointer object)
    if socket == 0 then threw script_error w else (do
      let event = checks.userdata "EventUserdata" (length w.events + 1)
      let func = lua.ref (lua.push function w.state)
      let owner = lua.ref (lua.push upvalue func.1)
      let self = lua.ref (lua.push event owner.1)
      s ← socket_at socket w
      let added = add_handler s handler (length w.events + 1)
      done (
        event,
        put_socket socket added.1 (record w {
          state = self.1;
          events =
              w.events
              ++ record {
                socket = socket;
                bound = true;
                func_ref = func.0;
                socket_ref = owner.0;
                event_ref = self.0;
                handler_index = added.0;
              }
                ∷ [];
        }),
      )))

  -- What `EventHandler_Disconnect` does before it deletes the event.
  unfoldable pub release_event : EventUserdata → World L → Outcome (World L) (World L)
  unfolding socket_at changed_socket remove_handler_at
  release_event e w =
      let w' : World L = record w {
        state = lua.unref e.event_ref (lua.unref e.socket_ref (lua.unref e.func_ref w.state));
      } in
      if e.socket == 0 then done w' else (do
        s ← socket_at e.socket w'
        changed_socket e.socket w' (remove_handler_at s e.handler_index))

  -- `EventHandler_Disconnect`. The event is a userdata of the interpreter, and not what `new` gave,
  -- so that its `delete` is undefined.
  unfoldable pub disconnect : List V → World L → Outcome (World L) (World L)
  unfolding argument event_at
  disconnect args w = do
    p ← argument checks (checks.check_udata "EventUserdata") args 1 w
    e ← event_at p w
    if not e.bound then threw script_error w else (do w' ← release_event e w; fault)

  -- `EventConnection_GC` takes the first word of the event, its socket, for a pointer to an event.
  unfoldable pub event_gc : List V → World L → Outcome (World L) (World L)
  unfolding argument event_at
  event_gc args w = do
    p ← argument checks (checks.check_udata "EventUserdata") args 1 w
    e ← event_at p w
    if e.socket == 0 then done w else fault

  -- `EventConnection_Index` and `NetSocket_Event_Index`: whether the key names their one method.
  unfoldable pub is_disconnect : V → Outcome (World L) Bool
  unfolding c_string same_bytes
  is_disconnect key = do
    name ← given (checks.to_string key)
    done (same_bytes (c_string name) (codes "Disconnect"))

  unfoldable pub is_connect : V → Outcome (World L) Bool
  unfolding c_string same_bytes
  is_connect key = do
    name ← given (checks.to_string key)
    done (same_bytes (c_string name) (codes "Connect"))
