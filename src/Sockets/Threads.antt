-- ===== src/Sockets/Threads.antt =====
-- The threads that listen for a socket, with what the documentation of Windows says of the calls.
use h1z1_server.Base.{
  ℕ, ◌<◌, ◌≡◌, refl, sym, subst, ap, ◌∙◌, Bool, true, false, List, [], ◌∷◌, ◌==◌, arith, Bool-cases,
  inl, inr,
}
use h1z1_server.Sockets.UserData.{Differs}
use h1z1_server.Sockets.{NetSocket}
use h1z1_server.Sockets.Lifetime.{
  Call, cleanup, close_socket, terminate_thread, close_net_socket, listen_async,
}

abbrev pub ends : ℕ → Call → Bool
ends h (terminate_thread other) = other == h
ends h _ = false

-- `T` is the state of the system. Only `TerminateThread` ends a thread; one that is suspended has
-- not ended.
pub record Windows (T : Type 0) : Type 0 where
  pub active : T → ℕ → Bool
  pub perform : Call → T → T
  pub active-ended : (h : ℕ) (t : T) → active (perform (terminate_thread h) t) h ≡ false
  pub active-other :
      (h : ℕ) (c : Call) (t : T) → ends h c ≡ false → active (perform c t) h ≡ active t h

listen_async-begun :
    (s : NetSocket) (thread : ℕ)
    → s.initialized ≡ true
    → 0 < s.buffer_size
    → (listen_async thread s).1 ≡ record s { listen_thread = thread }
unfolding listen_async
listen_async-begun s thread made room = rw (listen_async, made, not_zero)
  where
    not_zero : (s.buffer_size == 0) ≡ false
    not_zero = ground (arith, room)

module _ {T : Type 0} (windows : Windows T) where
  abbrev pub performs : List Call → T → T
  performs [] t = t
  performs (c ∷ cs) t = performs cs (windows.perform c t)

  -- None of the calls ends the thread.
  abbrev pub Spares : ℕ → List Call → Type 0
  Spares h [] = Unit
  Spares h (c ∷ cs) = (ends h c ≡ false) × Spares h cs

  active-performs :
      (h : ℕ) (cs : List Call) (t : T)
      → Spares h cs
      → windows.active (performs cs t) h ≡ windows.active t h
  active-performs h [] t e = refl
  active-performs h (c ∷ cs) t e =
      active-performs h cs (windows.perform c t) e.1 ∙ windows.active-other h c t e.0

  close_net_socket-ended :
      (s : NetSocket) (t : T)
      → s.initialized ≡ true
      → windows.active (performs (close_net_socket (windows.active t) s) t) s.listen_thread ≡ false
  unfolding close_net_socket
  close_net_socket-ended s t made = elim (Bool-cases (windows.active t s.listen_thread)) [
    | inl active ↦
        rw (close_net_socket, made, active)
          (active-performs s.listen_thread (close_socket s.server ∷ cleanup ∷ [])
              (windows.perform (terminate_thread s.listen_thread) t) (refl, (refl, tt))
            ∙ windows.active-ended s.listen_thread t)
    | inr ended ↦
        rw (close_net_socket, made, ended)
          (active-performs s.listen_thread (close_socket s.server ∷ cleanup ∷ []) t
              (refl, (refl, tt))
            ∙ ended)
  ]

  close_net_socket-Spares :
      (active : ℕ → Bool) (s : NetSocket) (h : ℕ)
      → Differs s.listen_thread h
      → Spares h (close_net_socket active s)
  unfolding close_net_socket
  close_net_socket-Spares active s h d = elim (Bool-cases s.initialized) [
    | inr empty ↦ rw (close_net_socket, empty) tt
    | inl made ↦ elim (Bool-cases (active s.listen_thread)) [
      | inl running ↦ rw (close_net_socket, made, running) (ground (arith, d), (refl, (refl, tt)))
      | inr ended ↦ rw (close_net_socket, made, ended) (refl, (refl, tt))
    ]
  ]

  -- On a socket that is initialized and has a buffer, after two calls of `ListenAsync` for two
  -- threads of which the first is running, the calls of the destructor leave the second thread
  -- ended and the first one running.
  pub close_net_socket-listen_async :
      (s : NetSocket) (a b : ℕ) (t : T)
      → s.initialized ≡ true
      → 0 < s.buffer_size
      → Differs b a
      → windows.active t a ≡ true
      → (windows.active
            (performs
              (close_net_socket (windows.active t) (listen_async b (listen_async a s).1).1)
              t)
            b
          ≡ false)
        × (windows.active
              (performs
                (close_net_socket (windows.active t) (listen_async b (listen_async a s).1).1)
                t)
              a
            ≡ true)
  close_net_socket-listen_async s a b t made room d running =
      subst
        (λ (q : NetSocket).
          (windows.active (performs (close_net_socket (windows.active t) q) t) b ≡ false)
          × (windows.active (performs (close_net_socket (windows.active t) q) t) a ≡ true))
        (sym (replaced s a b made room))
        (
          close_net_socket-ended (record s { listen_thread = b }) t made,
          active-performs a (close_net_socket (windows.active t) (record s { listen_thread = b })) t
                (close_net_socket-Spares (windows.active t) (record s { listen_thread = b }) a d)
              ∙ running,
        )
    where
      replaced :
          (s : NetSocket) (a b : ℕ)
          → s.initialized ≡ true
          → 0 < s.buffer_size
          → (listen_async b (listen_async a s).1).1 ≡ record s { listen_thread = b }
      replaced s a b made room =
          ap (λ (q : NetSocket). (listen_async b q).1) (listen_async-begun s a made room)
          ∙ listen_async-begun (record s { listen_thread = a }) b made room
