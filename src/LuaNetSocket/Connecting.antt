-- ===== src/LuaNetSocket/Connecting.antt =====
-- Events connected to a socket and released again.
use h1z1_server.Base.{
  ℕ, ◌+◌, ◌-◌, get_elem?, set, get_elem?-set, get_elem?-last, ◌<◌, ◌≡◌, refl, ap, ◌∙◌, Bool, true,
  false, some, [], ◌∷◌, ◌++◌, length, arith, done, ◌==◌,
}
use h1z1_server.Lua.{Lua}
use h1z1_server.LuaStream.{Arguments}
use h1z1_server.Sockets.{NetSocket, add_handler}
use h1z1_server.LuaNetSocket.{EventUserdata, World, Pointers, Scripts, put_socket}
use h1z1_server.LuaNetSocket.Events.{connect}
use h1z1_server.LuaNetSocket.Calling.{IsActive}
use h1z1_server.LuaNetSocket.Firing.{Holds}

module _ {V H L D : Type 0} (lua : Lua V H L D) (checks : Arguments V D) (pointers : Pointers V)
    (scripts : Scripts lua) (malloc : ℕ → Bool) where
  -- What `Connect` of a function makes of the world: a socket with one more handler, and an event
  -- that has the reference to the function.
  pub record Connected (handler p : ℕ) (s : NetSocket) (function : V) (w w' : World L)
      (e : EventUserdata) : Type 0 where
    pub active : IsActive lua checks pointers scripts malloc (length w.events + 1) w' e
    pub events : w'.events ≡ w.events ++ e ∷ []
    pub holds : Holds p (add_handler s handler (length w.events + 1)).1 w'
    pub function_ref : e.func_ref ≡ (lua.ref (lua.push function w.state)).0
    pub socket : e.socket ≡ p
    pub added_at : e.handler_index ≡ (add_handler s handler (length w.events + 1)).0

  module _ (references : (l : L) → 0 < (lua.ref l).0) where
    pub connect-Connected :
        (handler p : ℕ) (s : NetSocket) (upvalue function : V) (w : World L)
        → Holds p s w
        → (w' : World L) × (e : EventUserdata) × (connect lua checks pointers scripts malloc handler
              upvalue
              (pointers.block p ∷ function ∷ [])
              w
            ≡ done (checks.userdata "EventUserdata" (length w.events + 1), w'))
          × Connected handler p s function w w' e
    unfolding connect put_socket
    connect-Connected handler p s upvalue function w h =
        let func = lua.ref (lua.push function w.state) in
        let owner = lua.ref (lua.push upvalue func.1) in
        let self =
          lua.ref (lua.push (checks.userdata "EventUserdata" (length w.events + 1)) owner.1) in
        let added = add_handler s handler (length w.events + 1) in
        let e : EventUserdata = record {
          socket = p;
          bound = true;
          func_ref = func.0;
          socket_ref = owner.0;
          event_ref = self.0;
          handler_index = added.0;
        } in
        (
          record w {
            state = self.1;
            sockets = set w.sockets (p - 1) (some added.1);
            events = w.events ++ e ∷ [];
          },
          e,
          rw (connect, pointers.block_pointer-block p, not_zero, h.1),
          record {
            active = record {
              known = at_end;
              not_null = omega arith;
              bound = refl;
              has_function = references (lua.push function w.state);
              has_socket = references (lua.push upvalue func.1);
            };
            events = refl;
            holds = (h.0, get_elem?-set w.sockets (p - 1) (some s) (some added.1) h.1);
            function_ref = refl;
            socket = refl;
            added_at = refl;
          },
        )
      where
        at_end :
            {e : EventUserdata} → get_elem? (w.events ++ e ∷ []) (length w.events + 1 - 1) ≡ some e
        at_end {e} =
            ap (λ (i : ℕ). get_elem? (w.events ++ e ∷ []) i) (omega arith)
            ∙ get_elem?-last w.events e

        not_zero : (p == 0) ≡ false
        not_zero = ground (arith, h.0)
