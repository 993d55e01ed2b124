-- ===== src/Tests/SocketTests.antt =====
-- A socket with two handlers.
use h1z1_server.Base.{
  ℕ, ◌<◌, ◌≤◌, ◌≡◌, ◌⊎◌, refl, inr, Bool, true, false, if◌then◌else◌, some, List, [], ◌∷◌, arith,
  done, fault, codes,
}
use h1z1_server.Sockets.{
  NetSocket, add_handler, remove_handler, remove_first, deliver, remove_handler_at, delete_at,
  userdata_of, listener,
}
use h1z1_server.Sockets.UserData.{lookup, insert, erase}
use h1z1_server.Sockets.Registry.{without, Represents, add_handler-Represents}
use h1z1_server.Sockets.Removal.{
  remove_handler-Represents, remove_handler_at-cases, added_twice, add_handler-twice,
}
use h1z1_server.Sockets.Delivery.{run_all, listener-run_all}
use h1z1_server.Sockets.Lifetime.{
  Winsock, init_socket, Call, terminate_thread, close_net_socket, listen_async,
}
use h1z1_server.Sockets.Reachable.{adds, removes, here, next, IsKeyed}
use h1z1_server.Sockets.Threads.{Windows, ends, performs, close_net_socket-listen_async}
use h1z1_server.Sockets.Keyed.{listener-IsKeyed}
use h1z1_server.Tests.StreamTests.{grant_all}

abbrev socket : NetSocket
socket = record {
  initialized = true;
  server = 3;
  buffer_size = 512;
  socket_handlers = 100 ∷ 200 ∷ [];
  socket_userdata = (200, 8) ∷ (100, 7) ∷ [];
  listen_thread = 0;
}

-- Their registry.
abbrev handlers : List (ℕ × ℕ)
handlers = (100, 7) ∷ (200, 8) ∷ []

socket-Represents : Represents socket handlers
unfolding lookup
socket-Represents = record { in_order = refl; entries = (refl, (refl, tt)); distinct = omega arith }

add_handler-Represents_example :
    Represents (add_handler socket 300 9).1 ((100, 7) ∷ (200, 8) ∷ (300, 9) ∷ [])
    × ((add_handler socket 300 9).0 ≡ 2)
add_handler-Represents_example =
    add_handler-Represents socket handlers 300 9 socket-Represents (omega arith)

remove_handler-Represents_example : Represents (remove_handler socket 100) ((200, 8) ∷ [])
unfolding without
remove_handler-Represents_example = remove_handler-Represents socket handlers 100 socket-Represents

remove_handler_at-cases_example :
    ((1 < 2)
      × ((t : NetSocket) × (remove_handler_at socket 1 ≡ done t) × Represents t ((100, 7) ∷ [])))
    ⊎ ((2 ≤ 1) × (remove_handler_at socket 1 ≡ fault))
unfolding delete_at
remove_handler_at-cases_example = remove_handler_at-cases socket handlers 1 socket-Represents

add_handler-twice_example :
    ((userdata_of (added_twice socket 300 1 2) 300).0 ≡ 2)
    × ((remove_handler (added_twice socket 300 1 2) 300).socket_handlers ≡ 100 ∷ 200 ∷ 300 ∷ [])
    × ((userdata_of (remove_handler (added_twice socket 300 1 2) 300) 300).0 ≡ 0)
add_handler-twice_example =
    add_handler-twice socket handlers 300 1 2 socket-Represents (omega arith)

-- Handlers that note what they are called with.
abbrev note : ℕ → NetSocket → ℕ → ℕ → List ℕ → NetSocket × List ℕ
note h s size u log = (s, h ∷ size ∷ u ∷ log)

-- A packet of ten bytes.
abbrev packet_in : NetSocket → List ℕ → ℕ × List ℕ
packet_in s log = (10, log)

listener-run_all_example :
    listener note grant_all packet_in 3 socket []
    ≡ some (done (socket, 200 ∷ 10 ∷ 8 ∷ 100 ∷ 10 ∷ 7 ∷ []))
unfolding run_all
listener-run_all_example =
    listener-run_all note (λ h t size u w. refl) grant_all packet_in 3 socket handlers []
      socket-Represents refl (omega arith)

-- A new socket, and one with two handlers that remove themselves when they are called.
abbrev winsock : Winsock
winsock = record { starts = true; socket = λ udp. 3; binds = λ s host port. true }

abbrev made : NetSocket
made = (init_socket winsock socket (codes "localhost") 20042 512 true).1

abbrev two_added : NetSocket
two_added = (add_handler (add_handler made 100 7).1 200 8).1

abbrev remove_self : ℕ → NetSocket → ℕ → ℕ → List ℕ → NetSocket × List ℕ
remove_self h s size u log = (remove_handler s h, h ∷ log)

-- The second handler moves to the front and is passed over.
abbrev one_left : NetSocket
one_left = record socket { socket_handlers = 200 ∷ []; socket_userdata = (200, 8) ∷ [] }

listener-IsKeyed_example : IsKeyed one_left
unfolding listener init_socket remove_handler remove_first deliver add_handler userdata_of lookup
    insert erase
listener-IsKeyed_example =
    listener-IsKeyed remove_self (λ h s size u w. next here (removes s h)) winsock socket two_added
      (codes "localhost") 20042 512 true grant_all packet_in 3 [] (one_left, 100 ∷ [])
      (next (next here (adds made 100 7)) (adds (add_handler made 100 7).1 200 8)) refl

-- A system that knows which threads have not ended.
abbrev perform_call : Call → (ℕ → Bool) → ℕ → Bool
perform_call c running h = if ends h c then false else running h

ends-terminate_thread : (h : ℕ) → ends h (terminate_thread h) ≡ true
ends-terminate_thread h = ground arith

abbrev system : Windows (ℕ → Bool)
system = record {
  active = λ running h. running h;
  perform = perform_call;
  active-ended = λ h running. rw (ends-terminate_thread h) refl;
  active-other = λ h c running e. rw e refl;
}

abbrev both_run : ℕ → Bool
both_run h = true

close_net_socket-listen_async_example :
    (performs system
        (close_net_socket both_run (listen_async 12 (listen_async 11 socket).1).1)
        both_run
        12
      ≡ false)
    × (performs system
          (close_net_socket both_run (listen_async 12 (listen_async 11 socket).1).1)
          both_run
          11
        ≡ true)
close_net_socket-listen_async_example =
    close_net_socket-listen_async system socket 11 12 both_run refl (omega arith)
      (inr (omega arith)) refl
