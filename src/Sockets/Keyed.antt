-- ===== src/Sockets/Keyed.antt =====
-- User data never outlives its handlers, whatever is done with a socket and by its handlers.
use h1z1_server.Base.{
  ℕ, zero, suc, ◌+◌, ◌≡◌, ◌≢◌, refl, sym, ap, ◌∙◌, subst, inl, inr, Bool, true, false, not, ◌||◌,
  ◌&&◌, Option, none, some, List, [], get_elem?, ◌==◌, ltb, ◌^◌, if◌then◌else◌, arith, Outcome,
  done, fault, Bool-cases, Option-cases,
}
use h1z1_server.Sockets.UserData.{
  lookup, insert, erase, Differs, lookup-insert_other, lookup-erase, lookup-erase_other,
}
use h1z1_server.Sockets.{
  NetSocket, add_handler, remove_first, remove_handler, delete_at, remove_handler_at,
  remove_handlers, userdata_of, deliver, listener,
}
use h1z1_server.Sockets.Removal.{remove_handler_at-inside, remove_handler_at-outside}
use h1z1_server.Sockets.Delivery.{userdata_of-known}
use h1z1_server.Sockets.Lifetime.{Winsock, init_socket, listen_async}
use h1z1_server.Sockets.Reachable.{
  SocketStep, adds, removes, removes_at, clears, starts, looks_up, Reaches, here, next,
  Reaches-trans, holds, IsKeyed, cases, holds-append, holds-remove_first, holds-delete_at,
  holds-member,
}

add_handler-IsKeyed : (s : NetSocket) (h u : ℕ) → IsKeyed s → IsKeyed (add_handler s h u).1
unfolding IsKeyed add_handler
add_handler-IsKeyed s h u keyed k missing =
    let (absent, d) = holds-append k h s.socket_handlers missing in
    lookup-insert_other k h u s.socket_userdata d ∙ keyed k absent

-- A handler that is lost to the vector takes its user data along.
erase-IsKeyed :
    (s : NetSocket) (h : ℕ) (hs : List ℕ)
    → IsKeyed s
    → ((k : ℕ) → Differs k h → holds k hs ≡ holds k s.socket_handlers)
    → IsKeyed (record s { socket_handlers = hs; socket_userdata = erase h s.socket_userdata })
unfolding IsKeyed
erase-IsKeyed s h hs keyed same k missing = elim (cases k h) [
  | inl d ↦ lookup-erase_other k h s.socket_userdata d ∙ keyed k (sym (same k d) ∙ missing)
  | inr e ↦
      ap (λ (j : ℕ). lookup j (erase h s.socket_userdata)) e ∙ lookup-erase h s.socket_userdata
]

remove_handler-IsKeyed : (s : NetSocket) (h : ℕ) → IsKeyed s → IsKeyed (remove_handler s h)
unfolding remove_handler
remove_handler-IsKeyed s h keyed = elim (Bool-cases (remove_first h s.socket_handlers).1) [
  | inl found ↦ rw found (
      erase-IsKeyed s h (remove_first h s.socket_handlers).0 keyed
        (λ k d. holds-remove_first k h s.socket_handlers d))
  | inr absent ↦ rw absent keyed
]

remove_handler_at-IsKeyed :
    (s t : NetSocket) (i : ℕ) → remove_handler_at s i ≡ done t → IsKeyed s → IsKeyed t
remove_handler_at-IsKeyed s t i returns keyed =
    elim (Option-cases (get_elem? s.socket_handlers i)) [
      | inl out ↦
          absurd
            (fault-ne-done t (remove_handler_at s i) (remove_handler_at-outside s i out) returns)
      | inr inside ↦
          subst IsKeyed
            (done_inj (remove_handler_at s i) _ t (remove_handler_at-inside s i inside.0 inside.1)
              returns)
            (erase-IsKeyed s inside.0 (delete_at i s.socket_handlers) keyed
              (λ k d. holds-delete_at k inside.0 i s.socket_handlers inside.1 d))
    ]
  where
    fault-ne-done : (t : NetSocket) (o : Outcome NetSocket NetSocket) → o ≡ fault → o ≢ done t
    fault-ne-done t o e f = cc

    done_inj : (o : Outcome NetSocket NetSocket) (a b : NetSocket) → o ≡ done a → o ≡ done b → a ≡ b
    done_inj o a b e f = cc

userdata_of-unknown :
    (s : NetSocket) (h : ℕ)
    → lookup h s.socket_userdata ≡ none
    → userdata_of s h ≡ (0, record s { socket_userdata = insert h 0 s.socket_userdata })
unfolding userdata_of
userdata_of-unknown s h e = rw (userdata_of, e)

userdata_of-IsKeyed :
    (s : NetSocket) (i h : ℕ)
    → get_elem? s.socket_handlers i ≡ some h
    → IsKeyed s
    → IsKeyed (userdata_of s h).1
unfolding IsKeyed
userdata_of-IsKeyed s i h member keyed = elim (Option-cases (lookup h s.socket_userdata)) [
  | inr known ↦
      subst (λ (r : ℕ × NetSocket). IsKeyed r.1) (sym (userdata_of-known s h known.0 known.1)) keyed
  | inl unknown ↦
      subst (λ (r : ℕ × NetSocket). IsKeyed r.1) (sym (userdata_of-unknown s h unknown))
        (λ k missing.
          lookup-insert_other k h 0 s.socket_userdata (apart k missing) ∙ keyed k missing)
]
  where
    clash : false ≢ true
    clash e = cc

    apart : (k : ℕ) → holds k s.socket_handlers ≡ false → Differs k h
    apart k missing = elim (cases k h) [
      | inl d ↦ d
      | inr e ↦ absurd (
          clash (
            sym missing
            ∙ ap (λ (j : ℕ). holds j s.socket_handlers) e
            ∙ holds-member h i s.socket_handlers member))
    ]

listen_async-IsKeyed : (s : NetSocket) (thread : ℕ) → IsKeyed s → IsKeyed (listen_async thread s).1
unfolding listen_async IsKeyed
listen_async-IsKeyed s thread keyed =
    elim (Bool-cases (not s.initialized || (s.buffer_size == 0))) [
      | inl refused ↦ rw refused keyed
      | inr begun ↦ rw begun keyed
    ]

SocketStep-IsKeyed : {s t : NetSocket} → SocketStep s t → IsKeyed s → IsKeyed t
unfolding IsKeyed remove_handlers lookup
SocketStep-IsKeyed (adds s h u) keyed = add_handler-IsKeyed s h u keyed
SocketStep-IsKeyed (removes s h) keyed = remove_handler-IsKeyed s h keyed
SocketStep-IsKeyed (removes_at s t i e) keyed = remove_handler_at-IsKeyed s t i e keyed
SocketStep-IsKeyed (clears s) keyed = λ k missing. refl
SocketStep-IsKeyed (starts s thread) keyed = listen_async-IsKeyed s thread keyed
SocketStep-IsKeyed (looks_up s i h member) keyed = userdata_of-IsKeyed s i h member keyed

Reaches-IsKeyed : {s t : NetSocket} → IsKeyed s → Reaches s t → IsKeyed t
Reaches-IsKeyed keyed here = keyed
Reaches-IsKeyed keyed (next r step) = SocketStep-IsKeyed step (Reaches-IsKeyed keyed r)

empty-IsKeyed : (s : NetSocket) → s.socket_userdata ≡ [] → IsKeyed s
unfolding IsKeyed lookup
empty-IsKeyed s e k missing = ap (lookup k) e

init_socket-empty :
    (winsock : Winsock) (m : NetSocket) (host : List ℕ) (port size : ℕ) (udp : Bool)
    → (init_socket winsock m host port size udp).1.socket_userdata ≡ []
unfolding init_socket
init_socket-empty winsock m host port size udp = ground arith

init_socket-Reaches-IsKeyed :
    (winsock : Winsock) (m t : NetSocket) (host : List ℕ) (port size : ℕ) (udp : Bool)
    → Reaches (init_socket winsock m host port size udp).1 t
    → IsKeyed t
init_socket-Reaches-IsKeyed winsock m t host port size udp r =
    Reaches-IsKeyed
      (empty-IsKeyed (init_socket winsock m host port size udp).1
        (init_socket-empty winsock m host port size udp))
      r

module _ {W : Type 0} (call : ℕ → NetSocket → ℕ → ℕ → W → NetSocket × W)
    (calls : (h : ℕ) (s : NetSocket) (size u : ℕ) (w : W) → Reaches s (call h s size u w).0) where
  deliver-outside :
      (n i : ℕ) (s : NetSocket) (size : ℕ) (w : W)
      → get_elem? s.socket_handlers i ≡ none
      → deliver call (suc n) i s size w ≡ some (s, w)
  unfolding deliver
  deliver-outside n i s size w e = rw (deliver, e)

  -- What the call of a handler leaves.
  abbrev called : NetSocket → ℕ → ℕ → W → NetSocket × W
  called s h size w = call h (userdata_of s h).1 size (userdata_of s h).0 w

  deliver-inside :
      (n i : ℕ) (s : NetSocket) (size : ℕ) (w : W) (h : ℕ)
      → get_elem? s.socket_handlers i ≡ some h
      → deliver call (suc n) i s size w
        ≡ deliver call n (i + 1) (called s h size w).0 size (called s h size w).1
  unfolding deliver
  deliver-inside n i s size w h e = rw (deliver, e)

  deliver-Reaches :
      (n i : ℕ) (s : NetSocket) (size : ℕ) (w : W) (r : NetSocket × W)
      → deliver call n i s size w ≡ some r
      → Reaches s r.0
  unfolding deliver
  deliver-Reaches zero i s size w r e = cc
  deliver-Reaches (suc n) i s size w r e = elim (Option-cases (get_elem? s.socket_handlers i)) [
    | inl out ↦
        subst (λ (q : NetSocket × W). Reaches s q.0)
          (some_inj (s, w) r (sym (deliver-outside n i s size w out) ∙ e)) here
    | inr member ↦
        Reaches-trans
          (Reaches-trans (next here (looks_up s i member.0 member.1))
            (calls member.0 (userdata_of s member.0).1 size (userdata_of s member.0).0 w))
          (deliver-Reaches n (i + 1) (called s member.0 size w).0 size (called s member.0 size w).1
            r (sym (deliver-inside n i s size w member.0 member.1) ∙ e))
  ]
    where
      some_inj : (a b : NetSocket × W) → some a ≡ some b → a ≡ b
      some_inj a b e = cc

  -- A round of `Listener`, from what its tests and its deliveries come to.
  abbrev round :
      NetSocket
      → W
      → Bool
      → Bool
      → Option (NetSocket × W)
      → Option (Outcome NetSocket (NetSocket × W))
  round s w granted received d =
      if granted
      then if received then elim d [ none ↦ none | some q ↦ some (done q) ] else some (done (s, w))
      else some fault

  listener-Reaches :
      (malloc : ℕ → Bool) (receive : NetSocket → W → ℕ × W) (n : ℕ) (s : NetSocket) (w : W)
      (ended : NetSocket × W)
      → listener call malloc receive n s w ≡ some (done ended)
      → Reaches s ended.0
  unfolding listener
  listener-Reaches malloc receive n s w ended e =
      by_cases (malloc s.buffer_size) (ltb 0 (receive s w).0 && ltb (receive s w).0 (2 ^ 31))
        (deliver call n 0 s (receive s w).0 (receive s w).1)
        (λ q delivered. deliver-Reaches n 0 s (receive s w).0 (receive s w).1 q delivered) e
    where
      done_inj :
          (o : Option (Outcome NetSocket (NetSocket × W))) (a b : NetSocket × W)
          → o ≡ some (done a)
          → o ≡ some (done b)
          → a ≡ b
      done_inj o a b e f = cc

      by_cases :
          (granted received : Bool) (d : Option (NetSocket × W))
          → ((q : NetSocket × W) → d ≡ some q → Reaches s q.0)
          → round s (receive s w).1 granted received d ≡ some (done ended)
          → Reaches s ended.0
      by_cases false received d h e = cc
      by_cases true false d h e =
          subst (λ (q : NetSocket × W). Reaches s q.0)
            (done_inj _ (s, (receive s w).1) ended refl e) here
      by_cases true true none h e = cc
      by_cases true true (some q) h e =
          subst (λ (r : NetSocket × W). Reaches s r.0) (done_inj _ q ended refl e) (h q refl)

  -- Whatever handlers are added to and removed from a new socket, in any order, and where the
  -- handlers that `Listener` calls change the socket in no other way, a round of `Listener` that
  -- returns leaves a socket in which every user data is that of a registered handler.
  pub listener-IsKeyed :
      (winsock : Winsock) (m s : NetSocket) (host : List ℕ) (port bytes : ℕ) (udp : Bool)
      (malloc : ℕ → Bool) (receive : NetSocket → W → ℕ × W) (n : ℕ) (w : W) (ended : NetSocket × W)
      → Reaches (init_socket winsock m host port bytes udp).1 s
      → listener call malloc receive n s w ≡ some (done ended)
      → IsKeyed ended.0
  listener-IsKeyed winsock m s host port bytes udp malloc receive n w ended r e =
      init_socket-Reaches-IsKeyed winsock m ended.0 host port bytes udp
        (Reaches-trans r (listener-Reaches malloc receive n s w ended e))
