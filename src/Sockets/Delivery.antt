-- ===== src/Sockets/Delivery.antt =====
-- The delivery of a packet, where the handlers leave the socket as it is.
use h1z1_server.Base.{
  ℕ, zero, suc, ◌^◌, ◌<◌, ◌≡◌, refl, sym, ◌∙◌, ap, Bool, true, some, none, List, [], ◌∷◌, ◌++◌,
  length, get_elem?, ltb, if◌then◌else◌, arith, done, length-append, ◌&&◌, Bool-cases, inl, inr,
}
use mathlib.Core.List.{append_assoc}
use h1z1_server.Sockets.UserData.{lookup}
use h1z1_server.Sockets.Registry.{keys, HasEntries, Represents}
use h1z1_server.Sockets.{NetSocket, userdata_of, deliver, listener}

get_elem?-append : (xs ys : List ℕ) (x : ℕ) → get_elem? (xs ++ x ∷ ys) (length xs) ≡ some x
get_elem?-append [] ys x = refl
get_elem?-append (y ∷ xs) ys x = get_elem?-append xs ys x

get_elem?-end : (xs : List ℕ) → get_elem? (xs ++ []) (length xs) ≡ none
get_elem?-end [] = refl
get_elem?-end (y ∷ xs) = get_elem?-end xs

pub userdata_of-known :
    (s : NetSocket) (h u : ℕ) → lookup h s.socket_userdata ≡ some u → userdata_of s h ≡ (u, s)
unfolding userdata_of
userdata_of-known s h u e = rw (userdata_of, e)

module _ {ℓ} {W : Type ℓ} (call : ℕ → NetSocket → ℕ → ℕ → W → NetSocket × W) where
  -- Each handler of a registry called once, in order, with its user data.
  unfoldable pub run_all : List (ℕ × ℕ) → NetSocket → ℕ → W → W
  run_all [] s size w = w
  run_all (p ∷ reg) s size w = run_all reg s size (call p.0 s size p.1 w).1

  module _ (quiet : (h : ℕ) (t : NetSocket) (size u : ℕ) (w : W) → (call h t size u w).0 ≡ t) where
    deliver-suffix :
        (n : ℕ) (s : NetSocket) (front : List ℕ) (reg : List (ℕ × ℕ)) (size : ℕ) (w : W)
        → s.socket_handlers ≡ front ++ keys reg
        → HasEntries s.socket_userdata reg
        → length reg < n
        → deliver call n (length front) s size w ≡ some (s, run_all reg s size w)
    unfolding deliver run_all
    deliver-suffix zero s front reg size w e has h = absurd (omega arith)
    deliver-suffix (suc n) s front [] size w e has h =
        rw (deliver, ap (λ (hs : List ℕ). get_elem? hs (length front)) e ∙ get_elem?-end front)
    deliver-suffix (suc n) s front (p ∷ reg) size w e has h =
        rw
          (
            deliver,
            ap (λ (hs : List ℕ). get_elem? hs (length front)) e
                ∙ get_elem?-append front (keys reg) p.0,
            userdata_of-known s p.0 p.1 has.0,
            quiet p.0 s size p.1 w,
          )
          (ap (λ (k : ℕ). deliver call n k s size (call p.0 s size p.1 w).1)
              (sym (length-append front (p.0 ∷ [])))
            ∙ deliver-suffix n s (front ++ p.0 ∷ []) reg size (call p.0 s size p.1 w).1
                (e ∙ sym (append_assoc front (p.0 ∷ []) (keys reg))) has.1 (omega arith))

    -- Where a socket has the handlers of a registry, the buffer is granted, no handler changes
    -- the socket, and the rounds allowed are more than the handlers: `Listener` leaves the
    -- socket as it is and, if the number of bytes received is positive, has each handler called
    -- exactly once, in the order of registration, with its own user data, and else calls none.
    pub listener-run_all :
        (malloc : ℕ → Bool) (receive : NetSocket → W → ℕ × W) (n : ℕ) (s : NetSocket)
        (reg : List (ℕ × ℕ)) (w : W)
        → Represents s reg
        → malloc s.buffer_size ≡ true
        → length reg < n
        → listener call malloc receive n s w
          ≡ some (
              done (
                s,
                if ltb 0 (receive s w).0 && ltb (receive s w).0 (2 ^ 31)
                    then run_all reg s (receive s w).0 (receive s w).1
                    else (receive s w).1,
              ))
    unfolding listener run_all
    listener-run_all malloc receive n s reg w r granted h =
        elim (Bool-cases (ltb 0 (receive s w).0 && ltb (receive s w).0 (2 ^ 31))) [
          | inl e ↦ rw (listener, granted, e, all) refl
          | inr e ↦ rw (listener, granted, e) refl
        ]
      where
        all :
            deliver call n 0 s (receive s w).0 (receive s w).1
            ≡ some (s, run_all reg s (receive s w).0 (receive s w).1)
        all = deliver-suffix n s [] reg (receive s w).0 (receive s w).1 r.in_order r.entries h
