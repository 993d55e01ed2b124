-- ===== src/LuaNetSocket/Twice.antt =====
-- Two events of one socket: they share a handler, and with it the user data, and the index that each
-- one keeps is not adjusted when the other goes.
use h1z1_server.Base.{
  ℕ, ◌+◌, ◌-◌, get_elem?, ◌<◌, ◌≡◌, sym, ap, ◌∙◌, ◌^◌, Bool, true, some, List, [], ◌∷◌, ◌++◌,
  length, done, fault,
}
use h1z1_server.Lua.{Lua}
use h1z1_server.LuaStream.{Arguments}
use h1z1_server.Sockets.{NetSocket, add_handler, delete_at}
use h1z1_server.Sockets.UserData.{lookup-insert}
use h1z1_server.LuaNetSocket.{EventUserdata, World, Pointers, Scripts}
use h1z1_server.LuaNetSocket.Events.{connect, release_event}
use h1z1_server.LuaNetSocket.Methods.{Environment, step_socket}
use h1z1_server.LuaNetSocket.Firing.{Holds, Holds-subst, IsQuiet, fires, step_socket-fires}
use h1z1_server.LuaNetSocket.Connecting.{Connected, connect-Connected}
use h1z1_server.LuaNetSocket.Releasing.{release_event-inside, release_event-outside}

-- A socket with two events more, from one world and the next.
abbrev pub twice : {L : Type 0} → ℕ → NetSocket → World L → World L → NetSocket
twice handler s w w1 =
    (add_handler (add_handler s handler (length w.events + 1)).1 handler (length w1.events + 1)).1

module _ {V H L D : Type 0} (lua : Lua V H L D) (checks : Arguments V D) (pointers : Pointers V)
    (scripts : Scripts lua) (malloc : ℕ → Bool) where
  -- Two events of a socket, and the worlds between.
  pub record ConnectedTwice (handler p : ℕ) (s : NetSocket) (first second : V) (upvalue : V)
      (w w1 w2 : World L) (e1 e2 : EventUserdata) : Type 0 where
    pub connects_first :
        connect lua checks pointers scripts malloc handler upvalue (pointers.block p ∷ first ∷ []) w
        ≡ done (checks.userdata "EventUserdata" (length w.events + 1), w1)
    pub is_first : Connected lua checks pointers scripts malloc handler p s first w w1 e1
    pub connects_second :
        connect lua checks pointers scripts malloc handler upvalue
          (pointers.block p ∷ second ∷ [])
          w1
        ≡ done (checks.userdata "EventUserdata" (length w1.events + 1), w2)
    pub is_second :
        Connected lua checks pointers scripts malloc handler p
          (add_handler s handler (length w.events + 1)).1
          second
          w1
          w2
          e2

  module _ (references : (l : L) → 0 < (lua.ref l).0) where
    connect-ConnectedTwice :
        (handler p : ℕ) (s : NetSocket) (first second upvalue : V) (w : World L)
        → Holds p s w
        → (w1 w2 : World L) × (e1 e2 : EventUserdata) × ConnectedTwice handler p s first second
            upvalue w w1 w2 e1 e2
    connect-ConnectedTwice handler p s first second upvalue w h =
        let (w1, e1, connects_first, is_first) =
          connect-Connected lua checks pointers scripts malloc references handler p s upvalue first
            w h in
        let (w2, e2, connects_second, is_second) =
          connect-Connected lua checks pointers scripts malloc references handler p
            (add_handler s handler (length w.events + 1)).1 upvalue second w1 is_first.holds in
        (
          w1,
          w2,
          e1,
          e2,
          record {
            connects_first = connects_first;
            is_first = is_first;
            connects_second = connects_second;
            is_second = is_second;
          },
        )

    -- Where references are not zero, and two functions are connected to the socket at a pointer,
    -- which has no handlers, and a step of the listener has what it needs (the buffer, a packet
    -- of at least one byte and fewer than 2 ^ 31, more than two rounds, and calls of scripts
    -- that leave sockets and events as they are), `Listener` returns: it has called the handler
    -- of the second event twice, and that event refers to the second function.
    pub connect-connect-step_socket :
        (env : Environment L) (p : ℕ) (s : NetSocket) (first second upvalue : V) (client : ℕ)
        (bytes : List ℕ) (size : ℕ) (w : World L)
        → IsQuiet lua checks pointers scripts malloc
        → Holds p s w
        → s.socket_handlers ≡ []
        → malloc s.buffer_size ≡ true
        → ((t : NetSocket) → env.receive t ≡ (size, (client, bytes)))
        → 0 < size
        → size < 2 ^ 31
        → 2 < env.rounds
        → (w1 w2 w3 : World L) × (e1 e2 : EventUserdata) × ConnectedTwice env.handler p s first
            second upvalue w w1 w2 e1 e2
          × (step_socket lua checks pointers scripts malloc env p (twice env.handler s w w1) w2
              ≡ some (done w3))
          × (fires lua checks pointers scripts malloc 2 (length w1.events + 1) client bytes size w2
              ≡ done w3)
          × (e2.func_ref ≡ (lua.ref (lua.push second w1.state)).0)
    unfolding add_handler
    connect-connect-step_socket env p s first second upvalue client bytes size w quiet h empty
          granted received pos small enough =
        let (w1, w2, e1, e2, both) =
          connect-ConnectedTwice env.handler p s first second upvalue w h in
        let (w3, returns, ran, held) =
          step_socket-fires lua checks pointers scripts malloc env quiet p (length w1.events + 1)
            (twice env.handler s w w1) e2 client bytes size 2 w2
            (ap (λ (hs : List ℕ). (hs ++ env.handler ∷ []) ++ env.handler ∷ []) empty)
            (lookup-insert env.handler (length w1.events + 1)
              (add_handler s env.handler (length w.events + 1)).1.socket_userdata)
            both.is_second.active both.is_second.holds granted (received (twice env.handler s w w1))
            pos small enough in
        (w1, w2, w3, e1, e2, both, returns, ran, both.is_second.function_ref)

    -- Where references are not zero, and two functions are connected to the socket at a pointer,
    -- which has no handlers, what `Disconnect` does with the first event returns, and the same
    -- with the second then removes a handler outside the vector.
    pub connect-connect-release_event :
        (handler p : ℕ) (s : NetSocket) (first second upvalue : V) (w : World L)
        → Holds p s w
        → s.socket_handlers ≡ []
        → (w1 w2 w3 : World L) × (e1 e2 : EventUserdata) × ConnectedTwice handler p s first second
            upvalue w w1 w2 e1 e2
          × (release_event lua checks pointers scripts malloc e1 w2 ≡ done w3)
          × (release_event lua checks pointers scripts malloc e2 w3 ≡ fault)
    unfolding add_handler delete_at
    connect-connect-release_event handler p s first second upvalue w h empty =
        let (w1, w2, e1, e2, both) = connect-ConnectedTwice handler p s first second upvalue w h in
        let handlers : (twice handler s w w1).socket_handlers ≡ handler ∷ handler ∷ [] =
          ap (λ (hs : List ℕ). (hs ++ handler ∷ []) ++ handler ∷ []) empty in
        let first_index : e1.handler_index ≡ 0 =
          both.is_first.added_at ∙ ap (λ (hs : List ℕ). length (hs ++ handler ∷ []) - 1) empty in
        let second_index : e2.handler_index ≡ 1 =
          both.is_second.added_at
          ∙ ap (λ (hs : List ℕ). length ((hs ++ handler ∷ []) ++ handler ∷ []) - 1) empty in
        let (w3, released_first, left) =
          release_event-inside lua checks pointers scripts malloc e1 w2 (twice handler s w w1)
            handler
            (Holds-subst (twice handler s w w1) w2 both.is_first.socket both.is_second.holds)
            (ap (get_elem? (twice handler s w w1).socket_handlers) first_index
              ∙ ap (λ (hs : List ℕ). get_elem? hs 0) handlers) in
        (
          w1,
          w2,
          w3,
          e1,
          e2,
          both,
          released_first,
          release_event-outside lua checks pointers scripts malloc e2 w3 _
              (Holds-subst _ w3 (both.is_second.socket ∙ sym both.is_first.socket) left)
              (ap (get_elem? (delete_at e1.handler_index (twice handler s w w1).socket_handlers))
                  second_index
                ∙ ap (λ (i : ℕ). get_elem? (delete_at i (twice handler s w w1).socket_handlers) 1)
                    first_index
                ∙ ap (λ (hs : List ℕ). get_elem? (delete_at 0 hs) 1) handlers),
        )
