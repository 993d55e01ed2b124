-- ===== src/Tests/SocketObjectTests.antt =====
-- The Lua objects for sockets and their events, on small worlds.
use h1z1_server.Base.{
  ◌+◌, ◌≡◌, refl, true, some, [], ◌∷◌, length, arith, done, fault, codes, le_bytes, List,
}
use h1z1_server.Sockets.{NetSocket}
use h1z1_server.Stream.Buffer.{Stream}
use h1z1_server.Stream.Fields.{encode}
use h1z1_server.LuaStream.Methods.{call_reader}
use h1z1_server.LuaNetSocket.Reading.{event_handler-read_dword}
use h1z1_server.Sockets.UserData.{lookup}
use h1z1_server.LuaNetSocket.{EventUserdata, World}
use h1z1_server.LuaNetSocket.Events.{connect, release_event, event_handler}
use h1z1_server.LuaNetSocket.Methods.{step_socket}
use h1z1_server.LuaNetSocket.Calling.{Ready, Settled, event_handler-Settled}
use h1z1_server.LuaNetSocket.Connecting.{Connected}
use h1z1_server.LuaNetSocket.Firing.{Holds, fires, step_socket-fires}
use h1z1_server.LuaNetSocket.Releasing.{connect-release_event}
use h1z1_server.LuaNetSocket.Twice.{
  ConnectedTwice, twice, connect-connect-step_socket, connect-connect-release_event,
}
use h1z1_server.Tests.StreamTests.{grant_all}
use h1z1_server.Tests.SmallLua.{
  Machine, number, function, object, block_of, small_lua, client, nothing, Value,
}
use h1z1_server.Tests.SmallWorld.{
  checks, pointers, scripts, failing_scripts, references, quiet, bare, start, env,
}

-- A world with one event, and its socket with that event's handler.
abbrev event : EventUserdata
event = record {
  socket = 1;
  bound = true;
  func_ref = 1;
  socket_ref = 2;
  event_ref = 3;
  handler_index = 0;
}

abbrev connected : NetSocket
connected = record bare { socket_handlers = 40 ∷ []; socket_userdata = (40, 1) ∷ [] }

abbrev world : World Machine
world = record start { sockets = some connected ∷ []; events = event ∷ [] }

step_socket-fires_example :
    (w' : World Machine) × (step_socket
        (small_lua [])
        checks
        pointers
        scripts
        grant_all
        env
        1
        connected
        world
      ≡ some (done w'))
    × (fires (small_lua []) checks pointers scripts grant_all 1 1 9 (1 ∷ 2 ∷ []) 2 world ≡ done w')
    × Holds 1 connected w'
unfolding lookup
step_socket-fires_example =
    step_socket-fires (small_lua []) checks pointers scripts grant_all env quiet 1 1 connected event
      9 (1 ∷ 2 ∷ []) 2 1 world refl refl
      (record {
        known = refl;
        not_null = omega arith;
        bound = refl;
        has_function = omega arith;
        has_socket = omega arith;
      })
      (omega arith, refl) refl refl (omega arith) (omega arith) (omega arith)

-- The script fails with a Boolean.
event_handler-Settled_example :
    (called w' : World Machine) × Ready
      (small_lua [])
      checks
      pointers
      failing_scripts
      grant_all
      event
      9
      (1 ∷ 2 ∷ [])
      2
      world
      called
    × (event_handler
          (small_lua [])
          checks
          pointers
          failing_scripts
          grant_all
          1
          9
          (1 ∷ 2 ∷ [])
          2
          world
        ≡ done w')
    × Settled (small_lua []) checks pointers failing_scripts grant_all (number 5 ∷ []) w'
    × (w'.sockets ≡ (failing_scripts.run 2 called).1.sockets)
    × (w'.events ≡ (failing_scripts.run 2 called).1.events)
event_handler-Settled_example =
    event_handler-Settled (small_lua []) checks pointers failing_scripts grant_all 1 9 (1 ∷ 2 ∷ [])
      2 world event
      (record {
        known = refl;
        not_null = omega arith;
        bound = refl;
        has_function = omega arith;
        has_socket = omega arith;
      })

connect-release_event_example :
    (w1 w2 : World Machine) × (e : EventUserdata) × (connect
        (small_lua [])
        checks
        pointers
        scripts
        grant_all
        40
        (number 0)
        (block_of 1 ∷ function "f" ∷ [])
        start
      ≡ done (object "EventUserdata" 1, w1))
    × Connected (small_lua []) checks pointers scripts grant_all 40 1 bare (function "f") start w1 e
    × (release_event (small_lua []) checks pointers scripts grant_all e w1 ≡ done w2)
    × Holds 1 bare w2
unfolding lookup
connect-release_event_example =
    connect-release_event (small_lua []) checks pointers scripts grant_all references 40 1 bare
      (number 0) (function "f") start (omega arith, refl) refl

connect-connect-step_socket_example :
    (w1 w2 w3 : World Machine) × (e1 e2 : EventUserdata) × ConnectedTwice
      (small_lua [])
      checks
      pointers
      scripts
      grant_all
      40
      1
      bare
      (function "f")
      (function "g")
      (number 0)
      start
      w1
      w2
      e1
      e2
    × (step_socket
          (small_lua [])
          checks
          pointers
          scripts
          grant_all
          env
          1
          (twice 40 bare start w1)
          w2
        ≡ some (done w3))
    × (fires
          (small_lua [])
          checks
          pointers
          scripts
          grant_all
          2
          (length w1.events + 1)
          9
          (1 ∷ 2 ∷ [])
          2
          w2
        ≡ done w3)
    × (e2.func_ref ≡ ((small_lua []).ref ((small_lua []).push (function "g") w1.state)).0)
connect-connect-step_socket_example =
    connect-connect-step_socket (small_lua []) checks pointers scripts grant_all references env 1
      bare (function "f") (function "g") (number 0) 9 (1 ∷ 2 ∷ []) 2 start quiet (omega arith, refl)
      refl refl (λ t. refl) (omega arith) (omega arith) (omega arith)

connect-connect-release_event_example :
    (w1 w2 w3 : World Machine) × (e1 e2 : EventUserdata) × ConnectedTwice
      (small_lua [])
      checks
      pointers
      scripts
      grant_all
      40
      1
      bare
      (function "f")
      (function "g")
      (number 0)
      start
      w1
      w2
      e1
      e2
    × (release_event (small_lua []) checks pointers scripts grant_all e1 w2 ≡ done w3)
    × (release_event (small_lua []) checks pointers scripts grant_all e2 w3 ≡ fault)
connect-connect-release_event_example =
    connect-connect-release_event (small_lua []) checks pointers scripts grant_all references 40 1
      bare (function "f") (function "g") (number 0) start (omega arith, refl) refl

event_handler-read_dword_example :
    (called w' : World Machine) × (packet : Value) × (objects : List Stream) × (called.state.values
      ≡ packet ∷ client 9 ∷ nothing ∷ number 5 ∷ [])
    × (event_handler
          (small_lua [])
          checks
          pointers
          scripts
          grant_all
          1
          9
          (1 ∷ 2 ∷ 3 ∷ 4 ∷ 5 ∷ [])
          5
          world
        ≡ done w')
    × (w'.sockets ≡ (scripts.run 2 called).1.sockets)
    × (call_reader checks grant_all (codes "ReadDword") (packet ∷ []) called.readers
        ≡ some (done (some (number 0x01020304), objects)))
unfolding encode le_bytes
event_handler-read_dword_example =
    event_handler-read_dword 0x01020304 (5 ∷ []) (omega arith) (omega arith) (small_lua []) checks
      pointers scripts grant_all 1 9 world event
      (record {
        known = refl;
        not_null = omega arith;
        bound = refl;
        has_function = omega arith;
        has_socket = omega arith;
      })
