-- ===== src/Sockets/Lifetime.antt =====
-- The making and closing of a `NetSocket`, its listening thread, and sending, with the calls of
-- winsock and Windows as values. A handle is a number; -1 is the invalid one.
use h1z1_server.Base.{
  ℕ, Bool, true, false, not, ◌||◌, List, [], ◌∷◌, ◌++◌, minus_one, ◌==◌, if◌then◌else◌, codes,
  same_bytes,
}
use h1z1_server.Sockets.{NetSocket}

pub data Call : Type 0 where
  cleanup : Call
  close_socket suspend_thread resume_thread terminate_thread : ℕ → Call

-- What winsock answers: whether it starts, a socket for a protocol, and whether an address can
-- be bound to it.
pub record Winsock : Type 0 where
  pub starts : Bool
  pub socket : Bool → ℕ
  pub binds : ℕ → List ℕ → ℕ → Bool

unfoldable pub host_address : List ℕ → List ℕ
unfolding same_bytes
host_address host = if same_bytes host (codes "localhost") then codes "127.0.0.1" else host

-- The constructor, on a memory that holds `m`; it sets neither the thread's handle nor, where it
-- returns early, the socket.
unfoldable pub init_socket : Winsock → NetSocket → List ℕ → ℕ → ℕ → Bool → List Call × NetSocket
unfolding host_address
init_socket winsock m host port size udp =
    let s : NetSocket = record m {
      initialized = false;
      buffer_size = size;
      socket_handlers = [];
      socket_userdata = [];
    } in
    let opened : NetSocket = record s { server = winsock.socket udp } in
    if not winsock.starts
    then ([], s)
    else if (opened.server == 0) || (opened.server == minus_one)
    then (cleanup ∷ [], opened)
    else if not (winsock.binds opened.server (host_address host) port)
    then (cleanup ∷ [], opened)
    else ([], record opened { initialized = true })

-- The destructor; `active` tells whether a thread still runs.
unfoldable pub close_net_socket : (ℕ → Bool) → NetSocket → List Call
close_net_socket active s =
    if not s.initialized
    then []
    else (if active s.listen_thread then terminate_thread s.listen_thread ∷ [] else [])
      ++ close_socket s.server ∷ cleanup ∷ []

-- What `Listen` does before its endless loop over `Listener`, and whether it gets to it;
-- `thread` is the handle of the current one.
unfoldable pub listen : ℕ → NetSocket → Bool × NetSocket
listen thread s =
    if not s.initialized || (s.buffer_size == 0)
    then (false, s)
    else (true, record s { listen_thread = thread })

-- `ListenAsync`; `thread` is the handle of the new one.
unfoldable pub listen_async : ℕ → NetSocket → Bool × NetSocket
listen_async thread s =
    if not s.initialized || (s.buffer_size == 0)
    then (false, s)
    else (true, record s { listen_thread = thread })

unfoldable pub stop_listener : NetSocket → List Call
stop_listener s =
    if (s.listen_thread == 0) || (s.listen_thread == minus_one)
    then []
    else suspend_thread s.listen_thread ∷ []

unfoldable pub start_listener : NetSocket → List Call
start_listener s =
    if (s.listen_thread == 0) || (s.listen_thread == minus_one)
    then []
    else resume_thread s.listen_thread ∷ []

-- `SendPacket`, from what `sendto` returns, -1 for an error.
unfoldable pub send_packet : ℕ → Bool
send_packet sent = not (sent == 0)
