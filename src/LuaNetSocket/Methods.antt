-- ===== src/LuaNetSocket/Methods.antt =====
-- The methods of a Lua object for a socket, by their names, and `NetSocket.New`.
use h1z1_server.Base.{
  ℕ, ◌+◌, ◌-◌, ◌==◌, Bool, true, false, not, Option, none, some, List, [], ◌∷◌, ◌++◌, length,
  Outcome, done, threw, fault, script_error, ◌>>=◌, if◌then◌else◌, get_elem?, codes, c_string,
  same_bytes, set,
}
use h1z1_server.Lua.{Lua}
use h1z1_server.Sockets.{NetSocket, listener, remove_handlers}
use h1z1_server.Sockets.Lifetime.{
  Call, Winsock, init_socket, close_net_socket, listen_async, stop_listener, start_listener,
  send_packet,
}
use h1z1_server.LuaStream.{Arguments, argument, int_argument}
use h1z1_server.LuaStream.Methods.{given}
use h1z1_server.LuaNetSocket.{World, Pointers, Scripts, socket_at, put_socket}
use h1z1_server.LuaNetSocket.Events.{event_handler}

-- `NetSocket_Index`: what a key names. `OnRecieve` is the socket's event, the others are methods.
pub data Member : Type 0 where
  on_recieve is_initialized_name listen_name step_listener_name start_listener_name
        stop_listener_name send_packet_name :
      Member

unfoldable pub member : List ℕ → Option Member
unfolding same_bytes
member key =
    if same_bytes key (codes "OnRecieve")
    then some on_recieve
    else if same_bytes key (codes "IsInitialized")
    then some is_initialized_name
    else if same_bytes key (codes "Listen")
    then some listen_name
    else if same_bytes key (codes "StepListener")
    then some step_listener_name
    else if same_bytes key (codes "StartListener")
    then some start_listener_name
    else if same_bytes key (codes "StopListener")
    then some stop_listener_name
    else if same_bytes key (codes "SendPacket")
    then some send_packet_name
    else none

-- A packet on its way through the handlers, with the world that they have made of the one before.
pub record Packet (L : Type 0) : Type 0 where
  pub client : ℕ
  pub bytes : List ℕ
  pub world : Outcome (World L) (World L)

-- What a method returns to the script, if anything, and the calls that it makes to the system.
pub record Reply (V L : Type 0) : Type 0 where
  pub value : Option V
  pub calls : List Call
  pub world : World L

-- What the program around a socket gives: the handlers that are not those of events, the address of
-- the one that is, `recvfrom` with its result, the client and the bytes, `sendto`, the rounds allowed
-- to `Listener`, and the handle of a new thread.
pub record Environment (L : Type 0) : Type 0 where
  pub others : ℕ → ℕ → ℕ → List ℕ → ℕ → World L → Outcome (World L) (World L)
  pub handler : ℕ
  pub receive : NetSocket → ℕ × (ℕ × List ℕ)
  pub sendto : ℕ → ℕ → Option (List ℕ) → ℕ → ℕ
  pub rounds : ℕ
  pub thread : ℕ

module _ {V H L D : Type 0} (lua : Lua V H L D) (checks : Arguments V D) (pointers : Pointers V)
    (scripts : Scripts lua) (malloc : ℕ → Bool) (env : Environment L) where
  -- A call of a handler at an address, on the socket at a pointer.
  unfoldable pub call_handler : ℕ → ℕ → NetSocket → ℕ → ℕ → Packet L → NetSocket × Packet L
  call_handler p h s size userdata packet =
      let world : Outcome (World L) (World L) = (do
        w ← packet.world
        if h == env.handler
            then event_handler lua checks pointers scripts malloc userdata packet.client
                packet.bytes size (put_socket p s w)
            else env.others h userdata packet.client packet.bytes size (put_socket p s w)) in
      let s' : Outcome (World L) NetSocket = world >>= socket_at p in
      (elim s' [ done t ↦ t | threw e w ↦ s | fault ↦ s ], record packet { world = world })

  -- `NetSocket::Listener` on the socket at a pointer; `none` when handlers prolong the loop
  -- beyond the rounds allowed.
  unfoldable pub step_socket : ℕ → NetSocket → World L → Option (Outcome (World L) (World L))
  unfolding listener put_socket
  step_socket p s w =
      elim (listener (call_handler p) malloc
        (λ t packet. (
          (env.receive t).0,
          record packet { client = (env.receive t).1.0; bytes = (env.receive t).1.1 },
        ))
        env.rounds s (record { client = 0; bytes = []; world = done w })) [
          | none ↦ none
          | some r ↦ elim r [
            | fault ↦ some fault
            | threw e t ↦ some (threw e w)
            | done ended ↦ some (ended.1.world >>= λ w'. done (put_socket p ended.0 w'))
          ]
        ]

  -- The pointer that every method takes from its first argument.
  unfoldable pub socket_argument : List V → World L → Outcome (World L) ℕ
  unfolding argument
  socket_argument args w = argument checks (checks.check_udata "NetSocket") args 1 w

  -- A method that does nothing on a null pointer.
  unfoldable pub on_socket :
      Option V
      → (ℕ → NetSocket → Outcome (World L) (Reply V L))
      → List V
      → World L
      → Outcome (World L) (Reply V L)
  unfolding socket_argument socket_at
  on_socket missing method args w = do
    p ← socket_argument args w
    if p == 0
        then done (record { value = missing; calls = []; world = w })
        else (do s ← socket_at p w; method p s)

  unfoldable pub is_initialized : List V → World L → Outcome (World L) (Reply V L)
  unfolding on_socket
  is_initialized args w =
      on_socket (some (pointers.boolean false))
        (λ p s.
          done (record { value = some (pointers.boolean s.initialized); calls = []; world = w }))
        args w

  unfoldable pub listen_method : List V → World L → Outcome (World L) (Reply V L)
  unfolding on_socket listen_async put_socket
  listen_method args w =
      on_socket none
        (λ p s. done (record {
          value = none;
          calls = [];
          world = put_socket p (listen_async env.thread s).1 w;
        }))
        args w

  unfoldable pub stop_method : List V → World L → Outcome (World L) (Reply V L)
  unfolding on_socket stop_listener
  stop_method args w =
      on_socket none (λ p s. done (record { value = none; calls = stop_listener s; world = w }))
        args w

  unfoldable pub start_method : List V → World L → Outcome (World L) (Reply V L)
  unfolding on_socket start_listener
  start_method args w =
      on_socket none (λ p s. done (record { value = none; calls = start_listener s; world = w }))
        args w

  -- `StepListener`.
  unfoldable pub step_method : List V → World L → Option (Outcome (World L) (Reply V L))
  unfolding socket_argument socket_at step_socket
  step_method args w = elim (socket_argument args w) [
    | fault ↦ some fault
    | threw e t ↦ some (threw e t)
    | done p ↦
        let found : Outcome (World L) NetSocket = socket_at p w in
        if p == 0
        then some (done (record { value = none; calls = []; world = w }))
        else elim found [
          | fault ↦ some fault
          | threw e t ↦ some (threw e t)
          | done s ↦ elim (step_socket p s w) [
            | none ↦ none
            | some r ↦ some (
                r >>= λ w'.
                done (record { value = some (pointers.boolean true); calls = []; world = w' }))
          ]
        ]
  ]

  -- `NetSocket_SendPacket`. The reader's whole block is sent.
  unfoldable pub send_method : List V → World L → Outcome (World L) (Reply V L)
  unfolding socket_argument argument socket_at send_packet
  send_method args w = do
    p ← socket_argument args w
    client ← argument checks pointers.check_light args 2 w
    place ← argument checks (checks.check_udata "ByteStreamReader") args 3 w
    if p == 0 then threw script_error w else if client == 0 then threw script_error w else (do
      s ← socket_at p w
      r ← given (get_elem? w.readers place)
      done (record {
        value =
            some
              (pointers.boolean (send_packet (env.sendto s.server client r.buffer r.buffer_size)));
        calls = [];
        world = w;
      }))

  -- `NetSocket_New`; `m` is what the memory of the new object holds.
  unfoldable pub net_socket_new :
      Winsock → NetSocket → List V → World L → Outcome (World L) (Reply V L)
  unfolding argument int_argument init_socket c_string
  net_socket_new winsock m args w = if not (length args == 4) then threw script_error w else (do
    flag ← given (get_elem? args 3)
    if not (pointers.is_boolean flag) then threw script_error w else (do
      host ← argument checks checks.check_bytes args 1 w
      port ← int_argument checks args 2 w
      size ← int_argument checks args 3 w
      let made = init_socket winsock m (c_string host) port size (checks.to_boolean flag)
      done (record {
        value = some (checks.userdata "NetSocket" (length w.sockets + 1));
        calls = made.0;
        world = record w { sockets = w.sockets ++ some made.1 ∷ [] };
      })))

  -- `NetSocket_GC`; `active` tells whether a thread still runs.
  unfoldable pub net_socket_gc : (ℕ → Bool) → List V → World L → Outcome (World L) (Reply V L)
  unfolding on_socket stop_listener remove_handlers close_net_socket
  net_socket_gc active args w =
      on_socket none
        (λ p s. done (record {
          value = none;
          calls =
              (if s.initialized then stop_listener s else [])
              ++ close_net_socket active (if s.initialized then remove_handlers s else s);
          world = record w { sockets = set w.sockets (p - 1) none };
        }))
        args w

  -- `OnRecieve` gives the address of the socket's block as light userdata. The first argument of
  -- `__index`, which is not checked, is the object itself.
  unfoldable pub on_recieve_value : List V → World L → Outcome (World L) (Reply V L)
  unfolding socket_argument
  on_recieve_value args w = do
    p ← socket_argument args w
    done (record { value = some (pointers.block p); calls = []; world = w })

  -- What a script gets from a member: its value, or that of a call of the method.
  unfoldable pub use_member : Member → List V → World L → Option (Outcome (World L) (Reply V L))
  unfolding on_recieve_value is_initialized listen_method step_method start_method stop_method
      send_method
  use_member on_recieve args w = some (on_recieve_value args w)
  use_member is_initialized_name args w = some (is_initialized args w)
  use_member listen_name args w = some (listen_method args w)
  use_member step_listener_name args w = step_method args w
  use_member start_listener_name args w = some (start_method args w)
  use_member stop_listener_name args w = some (stop_method args w)
  use_member send_packet_name args w = some (send_method args w)
