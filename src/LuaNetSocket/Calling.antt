-- ===== src/LuaNetSocket/Calling.antt =====
-- What the handler of events does to the interpreter's stack.
use h1z1_server.Base.{
  ℕ, ◌-◌, get_elem?, ◌<◌, ◌≤◌, ◌≡◌, ◌⊎◌, inl, inr, refl, ap, ◌∙◌, Bool, true, false, some, List, [],
  ◌∷◌, ◌++◌, length, drop, arith, done, Bool-cases, ◌==◌,
}
use h1z1_server.Lua.{Lua}
use h1z1_server.Lua.Access.{is_string, at_top, pop_values_lem, stack-pop_one}
use h1z1_server.LuaStream.{Arguments}
use h1z1_server.Stream.Reader.{init_reader}
use h1z1_server.LuaStream.Methods.{push_lua_stream}
use h1z1_server.LuaNetSocket.{EventUserdata, World, Pointers, Scripts}
use h1z1_server.LuaNetSocket.Events.{push_call, finish_call, event_handler}

module _ {V H L D : Type 0} (lua : Lua V H L D) (checks : Arguments V D) (pointers : Pointers V)
    (scripts : Scripts lua) (malloc : ℕ → Bool) where
  -- A call that is ready: its function, the client and a reader of the packet stand on the stack.
  pub record Ready (e : EventUserdata) (client : ℕ) (bytes : List ℕ) (size : ℕ) (w called : World L)
      : Type 0 where
    pub on :
        lua.stack called.state
        ≡ checks.userdata "ByteStreamReader" (length w.readers)
          ∷ pointers.light_userdata client
          ∷ lua.ref_value (lua.heap w.state) e.func_ref
          ∷ lua.stack w.state
    pub reader : called.readers ≡ w.readers ++ init_reader (some bytes) size true ∷ []
    pub same_sockets : called.sockets ≡ w.sockets
    pub same_events : called.events ≡ w.events

  push_call-Ready :
      (e : EventUserdata) (client : ℕ) (bytes : List ℕ) (size : ℕ) (w : World L)
      → (called : World L) × (push_call lua checks pointers scripts malloc e client bytes size w
          ≡ done called)
        × Ready e client bytes size w called
  unfolding push_call push_lua_stream
  push_call-Ready e client bytes size w =
      let owner = lua.push (lua.ref_value (lua.heap w.state) e.socket_ref) w.state in
      let event = lua.ref_value (lua.heap owner) e.event_ref in
      let on =
        lua.stack-push event owner
        ∙ ap (◌∷◌ event) (lua.stack-push (lua.ref_value (lua.heap w.state) e.socket_ref) w.state) in
      let enough : 2 ≤ length (lua.stack (lua.push event owner)) = omega (arith, ap length on) in
      let l = lua.pop 2 (lua.push event owner) in
      let left = lua.stack-pop 2 (lua.push event owner) enough ∙ ap (drop 2) on in
      let same =
        lua.heap-pop 2 (lua.push event owner) enough
        ∙ lua.heap-push event owner
        ∙ lua.heap-push (lua.ref_value (lua.heap w.state) e.socket_ref) w.state in
      let reader = checks.userdata "ByteStreamReader" (length w.readers) in
      let with_function = lua.push (lua.ref_value (lua.heap l) e.func_ref) l in
      let with_client = lua.push (pointers.light_userdata client) with_function in
      (
        record w {
          state = lua.push reader with_client;
          readers = w.readers ++ init_reader (some bytes) size true ∷ [];
        },
        rw (push_call, pop_values_lem {S = World L} lua 2 (lua.push event owner) enough),
        record {
          on =
              lua.stack-push reader with_client
              ∙ ap (◌∷◌ reader) (
                  lua.stack-push (pointers.light_userdata client) with_function
                  ∙ ap (◌∷◌ (pointers.light_userdata client)) (
                      lua.stack-push (lua.ref_value (lua.heap l) e.func_ref) l
                      ∙ ap (λ h. lua.ref_value h e.func_ref ∷ lua.stack l) same
                      ∙ ap (◌∷◌ (lua.ref_value (lua.heap w.state) e.func_ref)) left));
          reader = refl;
          same_sockets = refl;
          same_events = refl;
        },
      )

  -- The stack after the call: as it was, or with an error on top that is no string.
  pub Settled : List V → World L → Type 0
  Settled vs w =
      (lua.stack w.state ≡ vs)
      ⊎ ((v : V) × (is_string (lua.type_of v) ≡ false) × (lua.stack w.state ≡ v ∷ vs))

  finish_call-done :
      (w : World L) (vs : List V)
      → (r : Bool × World L) → (r.0 ≡ true → lua.stack r.1.state ≡ vs)
      → (r.0 ≡ false → (v : V) × (lua.stack r.1.state ≡ v ∷ vs))
      → (w' : World L) × (finish_call lua checks pointers scripts malloc r ≡ done w')
        × Settled vs w'
        × (w'.sockets ≡ r.1.sockets)
        × (w'.events ≡ r.1.events)
  unfolding finish_call Settled
  finish_call-done w vs (true, u) good bad = (u, refl, inl (good refl), refl, refl)
  finish_call-done w vs (false, u) good bad =
      let (v, e) = bad refl in
      elim (Bool-cases (is_string (lua.type_of v))) [
        | inl string ↦ (
          record u { state = lua.pop 1 u.state },
          rw (
            finish_call,
            at_top {S = World L} lua v vs u.state e,
            string,
            pop_values_lem {S = World L} lua 1 u.state (omega (arith, ap length e)),
          ),
          inl (stack-pop_one lua u.state v vs e),
          refl,
          refl,
        )
        | inr other ↦ (
          u,
          rw (finish_call, at_top {S = World L} lua v vs u.state e, other),
          inr (v, other, e),
          refl,
          refl,
        )
      ]

  -- An event that the handler acts on.
  pub record IsActive (u : ℕ) (w : World L) (e : EventUserdata) : Type 0 where
    pub known : get_elem? w.events (u - 1) ≡ some e
    pub not_null : 0 < u
    pub bound : e.bound ≡ true
    pub has_function : 0 < e.func_ref
    pub has_socket : 0 < e.socket_ref

  event_handler-active :
      (u client : ℕ) (bytes : List ℕ) (size : ℕ) (w called : World L) (e : EventUserdata)
      → IsActive u w e
      → push_call lua checks pointers scripts malloc e client bytes size w ≡ done called
      → event_handler lua checks pointers scripts malloc u client bytes size w
        ≡ finish_call lua checks pointers scripts malloc (scripts.run 2 called)
  unfolding event_handler
  event_handler-active u client bytes size w called e a pushed = rw (
    event_handler,
    not_zero u a.not_null,
    a.known,
    a.bound,
    not_zero e.func_ref a.has_function,
    not_zero e.socket_ref a.has_socket,
    pushed,
  )
    where
      not_zero : (n : ℕ) → 0 < n → (n == 0) ≡ false
      not_zero n h = ground (arith, h)

  -- For an active event, `LuaNetSocket_EventHandler` returns: the function of the event is
  -- called with the client and a new reader of the packet on the stack, and behind the call the
  -- stack is as it was before, or has an error that is not a string on top of that; sockets and
  -- events are as the call has left them.
  pub event_handler-Settled :
      (u client : ℕ) (bytes : List ℕ) (size : ℕ) (w : World L) (e : EventUserdata)
      → IsActive u w e
      → (called w' : World L) × Ready e client bytes size w called
        × (event_handler lua checks pointers scripts malloc u client bytes size w ≡ done w')
        × Settled (lua.stack w.state) w'
        × (w'.sockets ≡ (scripts.run 2 called).1.sockets)
        × (w'.events ≡ (scripts.run 2 called).1.events)
  event_handler-Settled u client bytes size w e a =
      let (called, pushed, ready) = push_call-Ready e client bytes size w in
      let enough : 2 < length (lua.stack called.state) = omega (arith, ap length ready.on) in
      let (w', finished, settled, sockets, events) =
        finish_call-done w (lua.stack w.state) (scripts.run 2 called)
          (λ good. scripts.run-success 2 called enough good ∙ ap (drop 3) ready.on)
          (λ bad.
            let (v, left) = scripts.run-failure 2 called enough bad in
            (v, left ∙ ap (λ vs. v ∷ drop 3 vs) ready.on)) in
      (
        called,
        w',
        ready,
        event_handler-active u client bytes size w called e a pushed ∙ finished,
        settled,
        sockets,
        events,
      )
