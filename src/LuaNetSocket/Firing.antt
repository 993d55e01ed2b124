-- ===== src/LuaNetSocket/Firing.antt =====
-- Packets that reach events: all of them have one handler, which the map knows once.
use h1z1_server.Base.{
  ℕ, zero, suc, ◌+◌, ◌-◌, get_elem?, set, ◌<◌, ◌≡◌, refl, sym, ap, ◌∙◌, ◌^◌, Bool, true, false,
  Option, none, some, List, [], ◌∷◌, arith, Outcome, done, ◌>>=◌, ◌==◌, lt→ltb, replicate, subst,
}
use h1z1_server.Lua.{Lua}
use h1z1_server.LuaStream.{Arguments}
use h1z1_server.Sockets.{NetSocket, userdata_of, deliver, listener}
use h1z1_server.Sockets.UserData.{lookup}
use h1z1_server.Sockets.Delivery.{userdata_of-known}
use h1z1_server.LuaNetSocket.{EventUserdata, World, Pointers, Scripts, socket_at, put_socket}
use h1z1_server.LuaNetSocket.Events.{event_handler}
use h1z1_server.LuaNetSocket.Methods.{Packet, Environment, call_handler, step_socket}
use h1z1_server.LuaNetSocket.Calling.{IsActive, event_handler-Settled}

get_elem?-replicate :
    {A : Type 0} (k i j : ℕ) (a : A) → i + suc j ≡ k → get_elem? (replicate k a) i ≡ some a
get_elem?-replicate zero i j a e = absurd (omega arith)
get_elem?-replicate (suc k) zero j a e = refl
get_elem?-replicate (suc k) (suc i) j a e = get_elem?-replicate k i j a (omega arith)

get_elem?-replicate_end : {A : Type 0} (k : ℕ) (a : A) → get_elem? (replicate k a) k ≡ none
get_elem?-replicate_end zero a = refl
get_elem?-replicate_end (suc k) a = get_elem?-replicate_end k a

set-same : {A : Type 0} (xs : List A) (i : ℕ) (x : A) → get_elem? xs i ≡ some x → set xs i x ≡ xs
set-same [] i x e = refl
set-same (y ∷ xs) zero x e = ap (λ z. z ∷ xs) (sym (some_inj y x e))
  where
    some_inj : {A : Type 0} (a b : A) → some a ≡ some b → a ≡ b
    some_inj a b e = cc
set-same (y ∷ xs) (suc i) x e = ap (◌∷◌ y) (set-same xs i x e)

-- The socket at a pointer.
abbrev pub Holds : {L : Type 0} → ℕ → NetSocket → World L → Type 0
Holds p s w = (0 < p) × (get_elem? w.sockets (p - 1) ≡ some (some s))

pub Holds-subst :
    {L : Type 0} {a b : ℕ} (s : NetSocket) (w : World L) → a ≡ b → Holds b s w → Holds a s w
Holds-subst s w e held = subst (λ (p : ℕ). Holds p s w) (sym e) held

put_socket-Holds :
    {L : Type 0} (p : ℕ) (s : NetSocket) (w : World L) → Holds p s w → put_socket p s w ≡ w
unfolding put_socket
put_socket-Holds p s w h =
    ap (λ (ss : List (Option NetSocket)). record w { sockets = ss })
      (set-same w.sockets (p - 1) (some s) h.1)

pub socket_at-Holds :
    {L S : Type 0} (p : ℕ) (s : NetSocket) (w : World L)
    → Holds p s w
    → socket_at {S = S} p w ≡ done s
unfolding socket_at
socket_at-Holds p s w h = rw (socket_at, not_zero, h.1)
  where
    not_zero : (p == 0) ≡ false
    not_zero = ground (arith, h.0)

module _ {V H L D : Type 0} (lua : Lua V H L D) (checks : Arguments V D) (pointers : Pointers V)
    (scripts : Scripts lua) (malloc : ℕ → Bool) where
  -- The calls of a script's functions leave sockets and events as they are.
  pub record IsQuiet : Type 0 where
    pub same_sockets : (args : ℕ) (w : World L) → (scripts.run args w).1.sockets ≡ w.sockets
    pub same_events : (args : ℕ) (w : World L) → (scripts.run args w).1.events ≡ w.events

  -- So many calls of the function of one event.
  unfoldable pub fires : ℕ → ℕ → ℕ → List ℕ → ℕ → World L → Outcome (World L) (World L)
  fires zero u client bytes size w = done w
  fires (suc k) u client bytes size w =
      event_handler lua checks pointers scripts malloc u client bytes size w >>= λ w'.
      fires k u client bytes size w'

  module _ (env : Environment L) (quiet : IsQuiet) (p u : ℕ) (s : NetSocket) (e : EventUserdata)
      (client : ℕ) (bytes : List ℕ) (size : ℕ) where
    -- The world after an event's call.
    fired :
        (w : World L)
        → IsActive lua checks pointers scripts malloc u w e
        → Holds p s w
        → (w' : World L) × (event_handler lua checks pointers scripts malloc u client bytes size w
            ≡ done w')
          × IsActive lua checks pointers scripts malloc u w' e
          × Holds p s w'
    fired w a h =
        let (called, w', ready, returns, settled, sockets, events) =
          event_handler-Settled lua checks pointers scripts malloc u client bytes size w e a in
        let same = events ∙ quiet.same_events 2 called ∙ ready.same_events in
        (
          w',
          returns,
          record {
            known = ap (λ (es : List EventUserdata). get_elem? es (u - 1)) same ∙ a.known;
            not_null = a.not_null;
            bound = a.bound;
            has_function = a.has_function;
            has_socket = a.has_socket;
          },
          (
            h.0,
            ap (λ (ss : List (Option NetSocket)). get_elem? ss (p - 1))
                  (sockets ∙ quiet.same_sockets 2 called ∙ ready.same_sockets)
                ∙ h.1,
          ),
        )

    abbrev packet : World L → Packet L
    packet w = record { client = client; bytes = bytes; world = done w }

    call_handler-fired :
        (w w' : World L)
        → Holds p s w
        → Holds p s w'
        → event_handler lua checks pointers scripts malloc u client bytes size w ≡ done w'
        → call_handler lua checks pointers scripts malloc env p env.handler s size u (packet w)
          ≡ (s, packet w')
    unfolding call_handler
    call_handler-fired w w' h h' returns = rw (
      call_handler,
      same_handler,
      put_socket-Holds p s w h,
      returns,
      socket_at-Holds {S = World L} p s w' h',
    )
      where
        same_handler : (env.handler == env.handler) ≡ true
        same_handler = ground arith

    deliver-fires :
        (n j i k : ℕ) (w : World L)
        → i + j ≡ k
        → j < n
        → s.socket_handlers ≡ replicate k env.handler
        → lookup env.handler s.socket_userdata ≡ some u
        → IsActive lua checks pointers scripts malloc u w e
        → Holds p s w
        → (w' : World L) × (deliver
              (call_handler lua checks pointers scripts malloc env p)
              n
              i
              s
              size
              (packet w)
            ≡ some (s, packet w'))
          × (fires j u client bytes size w ≡ done w')
          × Holds p s w'
    unfolding deliver fires
    deliver-fires zero j i k w e n hs ud a h = absurd (omega arith)
    deliver-fires (suc n) zero i k w sum enough hs ud a h =
        (w, rw (deliver, ap (λ (xs : List ℕ). get_elem? xs i) hs ∙ none_left), refl, h)
      where
        none_left : get_elem? (replicate k env.handler) i ≡ none
        none_left =
            subst (λ (m : ℕ). get_elem? (replicate k env.handler) m ≡ none) (omega (arith, sum))
              (get_elem?-replicate_end k env.handler)
    deliver-fires (suc n) (suc j) i k w sum enough hs ud a h =
        let (w1, returns, a1, h1) = fired w a h in
        let (w2, delivered, ran, h2) =
          deliver-fires n j (i + 1) k w1 (omega (arith, sum)) (omega (arith, enough)) hs ud a1 h1 in
        (
          w2,
          rw
              (
                deliver,
                ap (λ (xs : List ℕ). get_elem? xs i) hs ∙ get_elem?-replicate k i j env.handler sum,
                known,
                call_handler-fired w w1 h h1 returns,
              )
              delivered,
          rw (fires, returns) ran,
          h2,
        )
      where
        known : userdata_of s env.handler ≡ (u, s)
        known = userdata_of-known s env.handler u ud

    -- Where the socket at a pointer has the handler of events, some number of times, and no
    -- other, with an active event as its user data, the calls of scripts leave sockets and
    -- events as they are, the buffer is granted, a packet of at least one byte and fewer than 2
    -- ^ 31 has come, and the rounds allowed are more than the handlers, `Listener` returns: it
    -- has called the handler of the event with the packet once for each of the handlers, and the
    -- socket is as it was.
    pub step_socket-fires :
        (k : ℕ) (w : World L)
        → s.socket_handlers ≡ replicate k env.handler
        → lookup env.handler s.socket_userdata ≡ some u
        → IsActive lua checks pointers scripts malloc u w e
        → Holds p s w
        → malloc s.buffer_size ≡ true
        → env.receive s ≡ (size, (client, bytes))
        → 0 < size
        → size < 2 ^ 31
        → k < env.rounds
        → (w' : World L) × (step_socket lua checks pointers scripts malloc env p s w
            ≡ some (done w'))
          × (fires k u client bytes size w ≡ done w')
          × Holds p s w'
    unfolding step_socket listener
    step_socket-fires k w hs ud a h granted received pos small enough =
        let (w', delivered, ran, h') =
          deliver-fires env.rounds k 0 k w (omega arith) enough hs ud a h in
        (
          w',
          rw
              (
                step_socket,
                listener,
                granted,
                received,
                lt→ltb 0 size pos,
                lt→ltb size (2 ^ 31) small,
                delivered,
              )
              (ap (λ (v : World L). some (done v)) (put_socket-Holds p s w' h')),
          ran,
          h',
        )
