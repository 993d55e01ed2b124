-- ===== src/Sockets.antt =====
-- `NetSocket` (ServerSystem/Sockets): the handlers that plugins register, and the delivery of
-- a packet to them. A handler and a pointer to user data are numbers, 0 the null pointer.
pub mod UserData
pub mod Registry
pub mod Removal
pub mod Delivery
pub mod Lifetime
pub mod Reachable
pub mod Keyed
pub mod Threads
use h1z1_server.Base.{
  ℕ, zero, suc, ◌+◌, ◌-◌, ◌^◌, ◌&&◌, Bool, true, Option, none, some, List, [], ◌∷◌, ◌++◌, length,
  ltb, ◌==◌, if◌then◌else◌, get_elem?, Outcome, done, fault,
}
use UserData.{lookup, insert, erase}

pub record NetSocket : Type 0 where
  pub initialized : Bool
  pub server : ℕ
  pub buffer_size : ℕ
  pub socket_handlers : List ℕ
  pub socket_userdata : List (ℕ × ℕ)
  pub listen_thread : ℕ

-- `AddHandler`. The result is the index of the handler; a vector has fewer than 2 ^ 31 elements
-- of four bytes.
unfoldable pub add_handler : NetSocket → ℕ → ℕ → ℕ × NetSocket
add_handler s handler userdata = (
  length (s.socket_handlers ++ handler ∷ []) - 1,
  record s {
    socket_handlers = s.socket_handlers ++ handler ∷ [];
    socket_userdata = insert handler userdata s.socket_userdata;
  },
)

-- The loop of `RemoveHandler(NetSocketHandler)`.
unfoldable pub remove_first : ℕ → List ℕ → List ℕ × Bool
remove_first handler [] = ([], Bool.false)
remove_first handler (h ∷ hs) =
    let rest = remove_first handler hs in if h == handler then (hs, true) else (h ∷ rest.0, rest.1)

unfoldable pub remove_handler : NetSocket → ℕ → NetSocket
remove_handler s handler =
    if (remove_first handler s.socket_handlers).1
    then record s {
      socket_handlers = (remove_first handler s.socket_handlers).0;
      socket_userdata = erase handler s.socket_userdata;
    }
    else s

unfoldable pub delete_at {ℓ} : {A : Type ℓ} → ℕ → List A → List A
delete_at i [] = []
delete_at zero (x ∷ xs) = xs
delete_at (suc i) (x ∷ xs) = x ∷ delete_at i xs

-- `RemoveHandler(int)`: an index outside the vector is not checked.
unfoldable pub remove_handler_at : NetSocket → ℕ → Outcome NetSocket NetSocket
remove_handler_at s i = elim (get_elem? s.socket_handlers i) [
  | none ↦ fault
  | some h ↦ done (record s {
    socket_handlers = delete_at i s.socket_handlers;
    socket_userdata = erase h s.socket_userdata;
  })
]

unfoldable pub remove_handlers : NetSocket → NetSocket
remove_handlers s = record s { socket_handlers = []; socket_userdata = [] }

-- `socketUserdata[handler]` adds a null pointer where there is no entry.
unfoldable pub userdata_of : NetSocket → ℕ → ℕ × NetSocket
userdata_of s handler = elim (lookup handler s.socket_userdata) [
  | none ↦ (0, record s { socket_userdata = insert handler 0 s.socket_userdata })
  | some u ↦ (u, s)
]

-- Handlers are called with the socket, so that they may change it, with the size and the user
-- data; `W` is all else that they see, with the client and the bytes received.
module _ {ℓ} {W : Type ℓ} (call : ℕ → NetSocket → ℕ → ℕ → W → NetSocket × W) where
  -- The loop over the handlers, from the index `i` on; `none` when more than `n` rounds are needed.
  unfoldable pub deliver : ℕ → ℕ → NetSocket → ℕ → W → Option (NetSocket × W)
  deliver zero i s size w = none
  deliver (suc n) i s size w = elim (get_elem? s.socket_handlers i) [
    | none ↦ some (s, w)
    | some h ↦
        let r = call h (userdata_of s h).1 size (userdata_of s h).0 w in
        deliver n (i + 1) r.0 size r.1
  ]

  -- `Listener`, with `recvfrom` at hand: its result is an `int`, and the handlers are called only
  -- if that is positive. The buffer is allocated and cleared first.
  unfoldable pub listener :
      (ℕ → Bool)
      → (NetSocket → W → ℕ × W)
      → ℕ
      → NetSocket
      → W
      → Option (Outcome NetSocket (NetSocket × W))
  listener malloc receive n s w =
      let received = receive s w in
      if malloc s.buffer_size
      then if ltb 0 received.0 && ltb received.0 (2 ^ 31)
        then elim (deliver n 0 s received.0 received.1) [ none ↦ none | some r ↦ some (done r) ]
        else some (done (s, received.1))
      else some fault
