-- ===== src/LuaNetSocket/Releasing.antt =====
-- Events that are released: `Disconnect`, and what it does before it deletes the event.
use h1z1_server.Base.{
  ℕ, ◌+◌, ◌-◌, get_elem?, set, ◌<◌, ◌≡◌, ◌≢◌, refl, sym, ap, ◌∙◌, Bool, true, false, none, some,
  List, [], ◌∷◌, ◌++◌, length, arith, Outcome, done, threw, fault, ◌>>=◌, if◌then◌else◌, ◌==◌,
  length-append, get_elem?-set, get_elem?-last, not, script_error, subst,
}
use h1z1_server.Lua.{Lua}
use h1z1_server.LuaStream.{Arguments, argument}
use h1z1_server.Sockets.{NetSocket, add_handler, delete_at}
use h1z1_server.Sockets.Removal.{remove_handler_at-inside, remove_handler_at-outside}
use h1z1_server.Sockets.UserData.{lookup, erase, insert, erase-insert}
use h1z1_server.LuaNetSocket.{EventUserdata, World, Pointers, Scripts, put_socket, event_at}
use h1z1_server.LuaNetSocket.Events.{connect, release_event, disconnect, changed_socket}
use h1z1_server.LuaNetSocket.Firing.{Holds, Holds-subst}
use h1z1_server.LuaNetSocket.Connecting.{Connected, connect-Connected}

not_null : (p : ℕ) → 0 < p → (p == 0) ≡ false
not_null p h = ground (arith, h)

>>=-ne-done :
    {S A B : Type 0} (m : Outcome S A) (f : A → Outcome S B) (b : B)
    → ((a : A) → f a ≢ done b)
    → m >>= f ≢ done b
>>=-ne-done (done a) f b h = h a
>>=-ne-done (threw e s) f b h = λ e'. cc
>>=-ne-done fault f b h = λ e'. cc

delete_at-last : (hs : List ℕ) (h : ℕ) → delete_at (length hs) (hs ++ h ∷ []) ≡ hs
unfolding delete_at
delete_at-last [] h = refl
delete_at-last (g ∷ hs) h = ap (◌∷◌ g) (delete_at-last hs h)

last_index : (hs : List ℕ) (h : ℕ) → length (hs ++ h ∷ []) - 1 ≡ length hs
last_index hs h = omega (arith, length-append hs (h ∷ []))

module _ {V H L D : Type 0} (lua : Lua V H L D) (checks : Arguments V D) (pointers : Pointers V)
    (scripts : Scripts lua) (malloc : ℕ → Bool) where
  -- The world without the references of an event.
  abbrev released : EventUserdata → World L → World L
  released e w = record w {
    state = lua.unref e.event_ref (lua.unref e.socket_ref (lua.unref e.func_ref w.state));
  }

  -- The socket of an event that is released, with the handler at the event's index removed.
  pub release_event-inside :
      (e : EventUserdata) (w : World L) (s : NetSocket) (h : ℕ)
      → Holds e.socket s w
      → get_elem? s.socket_handlers e.handler_index ≡ some h
      → (w' : World L) × (release_event lua checks pointers scripts malloc e w ≡ done w')
        × Holds e.socket
            (record s {
              socket_handlers = delete_at e.handler_index s.socket_handlers;
              socket_userdata = erase h s.socket_userdata;
            })
            w'
  unfolding release_event changed_socket put_socket
  release_event-inside e w s h holds inside =
      let s' : NetSocket = record s {
        socket_handlers = delete_at e.handler_index s.socket_handlers;
        socket_userdata = erase h s.socket_userdata;
      } in
      (
        record w {
          state = lua.unref e.event_ref (lua.unref e.socket_ref (lua.unref e.func_ref w.state));
          sockets = set w.sockets (e.socket - 1) (some s');
        },
        rw (release_event, not_null e.socket holds.0, holds.1)
            (ap (changed_socket e.socket (released e w))
              (remove_handler_at-inside s e.handler_index h inside)),
        (holds.0, get_elem?-set w.sockets (e.socket - 1) (some s) (some s') holds.1),
      )

  pub release_event-outside :
      (e : EventUserdata) (w : World L) (s : NetSocket)
      → Holds e.socket s w
      → get_elem? s.socket_handlers e.handler_index ≡ none
      → release_event lua checks pointers scripts malloc e w ≡ fault
  unfolding release_event changed_socket
  release_event-outside e w s holds outside =
      rw (release_event, not_null e.socket holds.0, holds.1)
        (ap (changed_socket e.socket (released e w))
          (remove_handler_at-outside s e.handler_index outside))

  -- `Disconnect` never returns normally, whatever its arguments and the world.
  disconnect-ne-done :
      (args : List V) (w w' : World L)
      → disconnect lua checks pointers scripts malloc args w ≢ done w'
  unfolding disconnect
  disconnect-ne-done args w w' =
      >>=-ne-done (argument checks (checks.check_udata "EventUserdata") args 1 w) _ w'
        (λ p. >>=-ne-done (event_at {S = World L} p w) _ w' (λ e. by_state e.bound e))
    where
      by_state :
          (b : Bool) (e : EventUserdata)
          → (if not b
              then threw script_error w
              else (release_event lua checks pointers scripts malloc e w >>= λ v. fault))
            ≢ done w'
      by_state false e = λ h. cc
      by_state true e =
          >>=-ne-done (release_event lua checks pointers scripts malloc e w) _ w' (λ v h. cc)

  module _ (references : (l : L) → 0 < (lua.ref l).0) where
    -- Where references are not zero, `Connect` of a function to the socket at a pointer that has
    -- no user data for the handler of events returns an active event that refers to the
    -- function, and what `Disconnect` does with that event before it deletes it returns and
    -- gives the socket back as it was before `Connect`.
    pub connect-release_event :
        (handler p : ℕ) (s : NetSocket) (upvalue function : V) (w : World L)
        → Holds p s w
        → lookup handler s.socket_userdata ≡ none
        → (w1 w2 : World L) × (e : EventUserdata) × (connect lua checks pointers scripts malloc
              handler upvalue
              (pointers.block p ∷ function ∷ [])
              w
            ≡ done (checks.userdata "EventUserdata" (length w.events + 1), w1))
          × Connected lua checks pointers scripts malloc handler p s function w w1 e
          × (release_event lua checks pointers scripts malloc e w1 ≡ done w2)
          × Holds p s w2
    unfolding add_handler
    connect-release_event handler p s upvalue function w h unknown =
        let (w1, e, connects, connected) =
          connect-Connected lua checks pointers scripts malloc references handler p s upvalue
            function w h in
        let s1 = (add_handler s handler (length w.events + 1)).1 in
        let last : e.handler_index ≡ length s.socket_handlers =
          connected.added_at ∙ last_index s.socket_handlers handler in
        let (w2, released_it, left) =
          release_event-inside e w1 s1 handler (Holds-subst s1 w1 connected.socket connected.holds)
            (ap (get_elem? (s.socket_handlers ++ handler ∷ [])) last
              ∙ get_elem?-last s.socket_handlers handler) in
        (
          w1,
          w2,
          e,
          connects,
          connected,
          released_it,
          subst (λ (t : NetSocket). Holds p t w2)
              (ap
                  (λ (hs : List ℕ). record s1 {
                    socket_handlers = hs;
                    socket_userdata =
                        erase handler (insert handler (length w.events + 1) s.socket_userdata);
                  })
                  (ap (λ (i : ℕ). delete_at i (s.socket_handlers ++ handler ∷ [])) last
                    ∙ delete_at-last s.socket_handlers handler)
                ∙ ap (λ (m : List (ℕ × ℕ)). record s { socket_userdata = m })
                    (erase-insert handler (length w.events + 1) s.socket_userdata unknown))
              (Holds-subst _ w2 (sym connected.socket) left),
        )
